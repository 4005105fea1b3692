-- ===== src/Undo/Sound.antt =====
-- The extension of a model of the simplified formula is a model of the original formula, if each
-- elimination was safe.
use riss.Base.{List, [], ◌∷◌}
use riss.Lit.{Lit}
use riss.Semantics.{Assignment, Models}
use riss.Undo.{Model, fill, extend_model}
use riss.Undo.Reconstruct.{
  assignment, Entry, entries, repaired, reconstruct, extend_model-reconstruct,
}

-- The clauses on the stack, the last one first, lead from the original formula to the simplified one:
-- each model after an elimination is, when repaired, a model before it.
pub data Safe (original : List (List Lit)) : List Entry → List (List Lit) → Type 0 where
  nothing : Safe original [] original
  eliminated :
      {es : List Entry} {before : List (List Lit)}
      → Safe original es before
      → (e : Entry) (now : List (List Lit))
      → ((g : Assignment) → Models g now → Models (repaired e g) before)
      → Safe original (e ∷ es) now

reconstruct-Safe :
    {f h : List (List Lit)} {es : List Entry} (g : Assignment)
    → Safe f es h
    → Models g h
    → Models (reconstruct es g) f
reconstruct-Safe g nothing k = k
reconstruct-Safe g (eliminated s e now safe) k = reconstruct-Safe (repaired e g) s (safe g k)

-- If the clauses on the stack were eliminated safely, one after the other, then a model of the
-- simplified formula, with its free variables filled, is extended to a model of the original one.
pub extend_model_sound :
    (f h : List (List Lit)) (es : List Entry) (m : Model)
    → Safe f es h
    → Models (assignment (fill m)) h
    → Models (assignment (extend_model (entries es) m)) f
extend_model_sound f h es m s k =
    let here = extend_model-reconstruct es m in rw here (reconstruct-Safe (assignment (fill m)) s k)
