-- ===== src/Search/Analyze/Counted.antt =====
-- Solver::analyze: pathC counts the marked literals of the current level that are left on the trail.
use riss.Base.{
  ℕ, ◌+◌, ◌≡◌, ◌≢◌, ◌<◌, inl, inr, refl, ap, sym, ◌∙◌, Bool, true, false, ◌&&◌, List, [], ◌∷◌, All,
  arith, if◌then◌else◌, leb, update, map,
}
use riss.Lit.{Lit, Var, IsMem, var}
use riss.Search.{Solver, decision_level, level}
use riss.Search.Final.{Seen}
use riss.Search.Backtrack.{Distinct}

-- the variable has the current level
abbrev pub current : Solver → Lit → Bool
current s k = leb (decision_level s) (level s (var k))

abbrev pub counts : Solver → Seen → Lit → Bool
counts s seen k = seen (var k) && current s k

abbrev pub count : Solver → List Lit → Seen → ℕ
count s [] seen = 0
count s (k ∷ t) seen = (if counts s seen k then 1 else 0) + count s t seen

-- a mark of another variable plays no part
pub count-other :
    (s : Solver) (t : List Lit) (seen : Seen) (x : Var) (b : Bool)
    → All (λ k. var k ≢ x) t
    → count s t (update seen x b) ≡ count s t seen
count-other s [] seen x b h = refl
count-other s (k ∷ t) seen x b h = let n = h.0 in ground (arith, count-other s t seen x b h.1)

pub fresh-var : (t : List Lit) (v : Var) → All (λ k. var k ≢ v) t → ¬ IsMem v (map var t)
fresh-var [] v h m = m
fresh-var (k ∷ t) v h (inl e) = h.0 (sym e)
fresh-var (k ∷ t) v h (inr m) = fresh-var t v h.1 m

-- a new mark of a variable of the trail counts once, if its level is the current one
pub count-mark :
    (s : Solver) (t : List Lit) (seen : Seen) (x : Var)
    → Distinct t
    → IsMem x (map var t)
    → seen x ≡ false
    → count s t (update seen x true)
      ≡ (if leb (decision_level s) (level s x) then 1 else 0) + count s t seen
count-mark s [] seen x d m h = absurd m
count-mark s (k ∷ t) seen x d (inl e) h =
    let rest : All (λ y. var y ≢ x) t = rw e d.0 in
    let same = count-other s t seen x true rest in
    let at : level s (var k) ≡ level s x = ap (level s) (sym e) in
    let un : seen (var k) ≡ false = ap seen (sym e) ∙ h in ground (arith, same)
count-mark s (k ∷ t) seen x d (inr m) h =
    let ne : var k ≢ x = λ e. fresh-var t (var k) d.0 (rw e m) in
    let ih = count-mark s t seen x d.1 m h in ground (arith, ih)

pub count-pos :
    (s : Solver) (t : List Lit) (seen : Seen) (k : Lit)
    → IsMem k t
    → counts s seen k ≡ true
    → 0 < count s t seen
count-pos s [] seen k m h = absurd m
count-pos s (l ∷ t) seen k (inl e) h =
    let h' : counts s seen l ≡ true = ap (counts s seen) (sym e) ∙ h in ground arith
count-pos s (l ∷ t) seen k (inr m) h = let ih = count-pos s t seen k m h in omega arith

-- where no literal has the current level, none is counted
pub count-none :
    (s : Solver) (t : List Lit) (seen : Seen)
    → All (λ k. level s (var k) < decision_level s) t
    → count s t seen ≡ 0
count-none s [] seen h = refl
count-none s (k ∷ t) seen h = let a = h.0 in let ih = count-none s t seen h.1 in ground (arith, ih)
