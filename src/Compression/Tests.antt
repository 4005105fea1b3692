-- ===== src/Compression/Tests.antt =====
-- Compressions of a formula of four variables.
use riss.Base.{zero, suc, ◌<◌, ◌≡◌, refl, Option, none, some, ◌==◌, if◌then◌else◌, arith}
use riss.Lit.{Var, lit}
use riss.Lifted.{LBool, l_true}
use riss.Compression.{
  Compression, new_compression, new_var, import_lit, export_lit, last_var, update_map,
}
use riss.Compression.Aligned.{Numbered, Aligned, new_var-Aligned}
use riss.Compression.Aligned.Update.{update_map-Aligned}
use riss.Compression.Aligned.Trips.{export-import, import-export}

new_compression-Aligned : Aligned new_compression
new_compression-Aligned = record {
  numbered = λ x v h e. absurd (omega (arith, h));
  inverse = λ x v h e. absurd (omega (arith, h));
  size = refl;
}

-- the variables 0 and 2 of four are units
abbrev first_map : Var → Option Var
first_map v = if v == 1 then some 0 else if v == 3 then some 1 else none

first_map-Numbered : Numbered first_map 4
first_map-Numbered zero v h e = cc
first_map-Numbered (suc zero) v h e = ground arith
first_map-Numbered (suc (suc zero)) v h e = cc
first_map-Numbered (suc (suc (suc zero))) v h e = ground arith
first_map-Numbered (suc (suc (suc (suc x)))) v h e = absurd (omega (arith, h))

abbrev units : Var → LBool
units v = l_true

abbrev once : Compression
once = update_map first_map 4 units 4 new_compression

update_map-Aligned_example : Aligned once
update_map-Aligned_example =
    update_map-Aligned first_map 4 units 4 new_compression new_compression-Aligned
      first_map-Numbered (omega arith) (λ e. cc)

once-Aligned : Aligned once
once-Aligned =
    update_map-Aligned first_map 4 units 4 new_compression new_compression-Aligned
      first_map-Numbered (omega arith) (λ e. cc)

new_var-Aligned_example : Aligned (new_var once).1
new_var-Aligned_example = new_var-Aligned once once-Aligned

imported : import_lit once (lit 7) ≡ lit 3
unfolding import_lit update_map
imported = refl

export-import_example : export_lit once (lit 3) ≡ lit 7
export-import_example = export-import once 7 3 once-Aligned imported

once_size : 1 < once.postvars
unfolding update_map last_var
once_size = omega arith

import-export_example : import_lit once (export_lit once (lit 2)) ≡ lit 2
import-export_example = import-export once 2 once-Aligned once_size
