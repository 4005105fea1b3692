-- ===== src/Compression/Aligned/Trips.antt =====
-- Importing and exporting undo each other.
use riss.Base.{
  ◌<◌, ◌≡◌, inl, inr, refl, ap, sym, ◌∙◌, Bool, true, false, some, Option-cases, Bool-cases, leb,
  arith,
}
use riss.Lit.{Lit, Var, lit, lit_undef, lit_error, mk_lit, var, sign}
use riss.Compression.{Compression, is_available, import_lit, export_lit}
use riss.Compression.Aligned.{Aligned}
use riss.Compression.Aligned.Update.{forward-kept}

var-mk_lit : (v : Var) (b : Bool) → var (mk_lit v b) ≡ v
var-mk_lit v b = ground arith

sign-mk_lit : (v : Var) (b : Bool) → sign (mk_lit v b) ≡ b
sign-mk_lit v true = ground arith
sign-mk_lit v false = ground arith

mk_lit-var : (p : Lit) → mk_lit (var p) (sign p) ≡ p
mk_lit-var p = ground arith

-- what a literal is imported as
import_lit-kept :
    (s : Compression) (p q : Lit)
    → is_available s ≡ true
    → import_lit s (lit p) ≡ lit q
    → (var p < s.nvars) × (v : Var) × (s.mapping (var p) ≡ some v) × (q ≡ mk_lit v (sign p))
unfolding import_lit
import_lit-kept s p q b h = elim (Bool-cases (leb s.nvars (var p))) [
  | inl c ↦ absurd (let wrong : lit_error ≡ lit q = rw (b, c, import_lit) at h in cc)
  | inr c ↦ elim (Option-cases (s.mapping (var p))) [
    | inl e ↦ absurd (let wrong : lit_undef ≡ lit q = rw (b, c, e, import_lit) at h in cc)
    | inr (v, e) ↦
        let same : lit (mk_lit v (sign p)) ≡ lit q = rw (b, c, e, import_lit) at h in
        let here : q ≡ mk_lit v (sign p) = cc in (ground arith, v, e, here)
  ]
]

-- Where the kept variables are numbered in their order and the forward table inverts the mapping: if
-- a literal is imported as another literal, then that one is exported as the first.
pub export-import :
    (s : Compression) (p q : Lit)
    → Aligned s
    → import_lit s (lit p) ≡ lit q
    → export_lit s (lit q) ≡ lit p
unfolding export_lit import_lit
export-import s p q a h = elim (Bool-cases (is_available s)) [
  | inr b ↦ let same : lit p ≡ lit q = rw (b, import_lit) at h in rw (b, export_lit) (sym same)
  | inl b ↦
      let (low, v, e, here) = import_lit-kept s p q b h in
      let at : var q ≡ v = ap var here ∙ var-mk_lit v (sign p) in
      let signs : sign q ≡ sign p = ap sign here ∙ sign-mk_lit v (sign p) in
      rw (b, export_lit, at, signs, a.inverse (var p) v low e) (ap lit (mk_lit-var p))
]

-- Where the kept variables are numbered in their order and the forward table inverts the mapping: a
-- literal of the compressed formula is exported as a literal that is imported as it.
pub import-export :
    (s : Compression) (q : Lit)
    → Aligned s
    → var q < s.postvars
    → import_lit s (export_lit s (lit q)) ≡ lit q
unfolding export_lit import_lit
import-export s q a h = elim (Bool-cases (is_available s)) [
  | inr b ↦ rw (b, export_lit, import_lit, b) refl
  | inl b ↦
      let (low, e) = forward-kept s a (var q) h in
      let x = s.forward (var q) in
      let beyond : leb s.nvars x ≡ false = ground arith in
      rw (b, export_lit, import_lit, b, var-mk_lit x (sign q), beyond, e, sign-mk_lit x (sign q))
        (ap lit (mk_lit-var q))
]
