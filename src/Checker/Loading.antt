-- ===== src/Checker/Loading.antt =====
-- The complements of a clause are assigned before propagation.
use riss.Base.{
  ◌≡◌, inl, inr, refl, ap, ◌∙◌, Bool, true, false, not, List, [], ◌∷◌, arith, All-map, All-append,
  Bool-cases,
}
use riss.Lit.{Lit, neg, var-neg, sign-neg}
use riss.Lifted.{l_true, l_undef, is_false, is_undef}
use riss.Semantics.{Assignment, holds, sat, holds-neg}
use riss.Checker.{Checker, value, unchecked_enqueue}
use riss.Checker.Operations.{enqueue_complements}
use riss.Checker.Forced.{value_of, enqueue, enqueue-known, enqueue_self}
use riss.Checker.Forced.Meaning.{Agrees, Agrees-false, Agrees-enqueue}
use riss.Checker.Rounds.{Watching-same}
use riss.Checker.Runs.{TrailTrue}
use riss.Checker.Valid.{Valid, OnTrail-enqueue, Quiet, Quiet-refl}

-- before propagation: the invariant, a trail of true literals, and the head at its start
pub record Loaded (s : Checker) (c : Bool) (t : Checker) : Type 0 where
  pub valid : Valid t
  pub trail_true : TrailTrue t
  pub qhead : t.qhead ≡ s.qhead
  pub quiet : Quiet s t

abbrev pub LoadedResult : Checker → Bool × Checker → Type 0
LoadedResult s r = Loaded s r.0 r.1

enqueue-Valid : (l : Lit) {s : Checker} → Valid s → Valid (unchecked_enqueue l s)
enqueue-Valid l {s} v = record {
  watching = Watching-same refl refl v.watching;
  in_range = v.in_range;
  units_in_range = v.units_in_range;
  on_trail = OnTrail-enqueue s.assigns s.trail l v.on_trail;
  fresh = v.fresh;
}

enqueue-TrailTrue :
    (l : Lit) (s : Checker) → TrailTrue s → value s l ≡ l_undef → TrailTrue (unchecked_enqueue l s)
enqueue-TrailTrue l s h u =
    All-append (λ m. value_of (enqueue l s.assigns) m ≡ l_true) s.trail (l ∷ [])
      (All-map s.trail (λ m k. ground (arith, enqueue-known s.assigns l m)) h)
      (enqueue_self s.assigns l u, tt)

pub enqueue_complements-Loaded :
    (c : List Lit) (s : Checker) → Valid s → TrailTrue s → LoadedResult s (enqueue_complements c s)
unfolding enqueue_complements
enqueue_complements-Loaded [] s v h = record {
  valid = v;
  trail_true = h;
  qhead = refl;
  quiet = Quiet-refl;
}
enqueue_complements-Loaded (l ∷ c) s v h = elim (Bool-cases (is_undef (value s l))) [
  | inl a ↦
      let u : value s (neg l) ≡ l_undef = ground (arith, var-neg l, sign-neg l) in
      let t = unchecked_enqueue (neg l) s in
      let r =
        enqueue_complements-Loaded c t (enqueue-Valid (neg l) v)
          (enqueue-TrailTrue (neg l) s h u) in
      rw (a, enqueue_complements)
        (record {
          valid = r.valid;
          trail_true = r.trail_true;
          qhead = r.qhead;
          quiet = record {
            memory = r.quiet.memory;
            unit_clauses = r.quiet.unit_clauses;
            ok = r.quiet.ok;
            proof = r.quiet.proof;
            sz = r.quiet.sz;
            n_vars = r.quiet.n_vars;
          };
        })
  | inr a ↦ elim (Bool-cases (is_false (value s (neg l)))) [
    | inl b ↦
        rw (a, b, enqueue_complements)
          (record { valid = v; trail_true = h; qhead = refl; quiet = Quiet-refl })
    | inr b ↦ rw (a, b, enqueue_complements) (enqueue_complements-Loaded c s v h)
  ]
]

-- an assignment that falsifies the clause agrees with its complements, and none of them is false
abbrev pub AgreesResult : Assignment → Bool × Checker → Type 0
AgreesResult g r = (r.0 ≡ false) × Agrees g r.1.assigns

pub enqueue_complements-Agrees :
    (g : Assignment) (c : List Lit) (s : Checker)
    → sat g c ≡ false
    → Agrees g s.assigns
    → AgreesResult g (enqueue_complements c s)
unfolding enqueue_complements
enqueue_complements-Agrees g [] s h a = (refl, a)
enqueue_complements-Agrees g (l ∷ c) s h a =
    let f : holds g l ≡ false = ground arith in
    let f' : holds g (neg l) ≡ true = holds-neg g l ∙ ap not f in
    let rest : sat g c ≡ false = ground arith in
    elim (Bool-cases (is_undef (value s l))) [
      | inl u ↦
          rw (u, enqueue_complements)
            (enqueue_complements-Agrees g c (unchecked_enqueue (neg l) s) rest
              (Agrees-enqueue g s.assigns (neg l) a f'))
      | inr u ↦ elim (Bool-cases (is_false (value s (neg l)))) [
        | inl b ↦ absurd (ground (arith, Agrees-false g s.assigns (neg l) a))
        | inr b ↦ rw (u, b, enqueue_complements) (enqueue_complements-Agrees g c s rest a)
      ]
    ]
