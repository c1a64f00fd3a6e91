-- ===== src/Client/Match/Rebase.antt =====
-- The loops with which `lirc_iscode` looks for what is left of a sequence after a wrong button.
use mathlib.Core.Option.{some-injective}
use mathlib.Core.Bool.{true≢false}
use mathlib.Core.Path.{subst}
use lirc.Base.{
  ℕ, zero, suc, ◌-◌, ◌≤◌, ◌<◌, ◌≡◌, refl, ap, sym, ◌∙◌, arith, Bool, true, false, if◌then◌else◌,
}
use lirc.Base.{List, [], ◌∷◌, drop, get_elem?, Option, none, some, Bool-cases, ltb, ◌⊎◌, inl, inr}
use lirc.Base.Text.{same_word}
use lirc.Remote.{Name}
use lirc.Client.{LircCode}
use lirc.Client.Match.{admits_code, same_code, prefix_again, code_at_matches, rebase}

pub none≢some : {A : Type 0} {y : A} → ¬ (none ≡ some y)
none≢some {A} {y} e = cc

-- The first `count` codes of two lists are the same.
abbrev AllSame : List LircCode → ℕ → List LircCode → Type 0
AllSame prev count next =
    (i : ℕ) (x y : LircCode)
    → i < count
    → get_elem? prev i ≡ some x
    → get_elem? next i ≡ some y
    → same_code x y ≡ some true

prefix_step :
    (x y : LircCode) (prev next : List LircCode) (count : ℕ) (b : Option Bool)
    → same_code x y ≡ b
    → prefix_again (x ∷ prev) (suc count) (y ∷ next) ≡ elim b as (λ _. Option Bool) [
      | none ↦ none
      | some false ↦ some false
      | some true ↦ prefix_again prev count next
    ]
unfolding prefix_again
prefix_step x y prev next count b e = rw (prefix_again, e) refl

AllSame-cons :
    (x y : LircCode) (prev next : List LircCode) (count : ℕ)
    → same_code x y ≡ some true
    → AllSame prev count next
    → AllSame (x ∷ prev) (suc count) (y ∷ next)
AllSame-cons x y prev next count e h zero x' y' k f g =
    let ex : x ≡ x' = some-injective x x' f in
    let ey : y ≡ y' = some-injective y y' g in
    ap (λ a. same_code a y') (sym ex) ∙ ap (same_code x) (sym ey) ∙ e
AllSame-cons x y prev next count e h (suc i) x' y' k f g = h i x' y' (omega arith) f g

AllSame-tail :
    (x y : LircCode) (prev next : List LircCode) (count : ℕ)
    → AllSame (x ∷ prev) (suc count) (y ∷ next)
    → AllSame prev count next
AllSame-tail x y prev next count h i x' y' k f g = h (suc i) x' y' (omega arith) f g

result_cases : (b : Option Bool) → (b ≡ none) ⊎ ((b ≡ some false) ⊎ (b ≡ some true))
result_cases none = inl refl
result_cases (some false) = inr (inl refl)
result_cases (some true) = inr (inr refl)

prefix_again-true :
    (prev : List LircCode) (count : ℕ) (next : List LircCode)
    → prefix_again prev count next ≡ some true
    → AllSame prev count next
unfolding prefix_again
prefix_again-true prev zero next e = λ i x y h f g. absurd (omega arith)
prefix_again-true prev (suc count) [] e = λ i x y h f g. absurd (none≢some g)
prefix_again-true [] (suc count) (y ∷ next) e = λ i x z h f g. absurd (none≢some f)
prefix_again-true (x ∷ prev) (suc count) (y ∷ next) e = elim (result_cases (same_code x y)) [
  | inl b ↦ absurd (none≢some (sym (prefix_step x y prev next count none b) ∙ e))
  | inr (inl b) ↦ absurd (
      true≢false (
        sym (some-injective false true (sym (prefix_step x y prev next count (some false) b) ∙ e))))
  | inr (inr b) ↦
      AllSame-cons x y prev next count b (
        prefix_again-true prev count next (sym (prefix_step x y prev next count (some true) b) ∙ e))
]

prefix_again-false :
    (prev : List LircCode) (count : ℕ) (next : List LircCode)
    → prefix_again prev count next ≡ some false
    → ¬ (AllSame prev count next)
unfolding prefix_again
prefix_again-false prev zero next e h = absurd (true≢false (some-injective true false e))
prefix_again-false prev (suc count) [] e h = absurd (true≢false (some-injective true false e))
prefix_again-false [] (suc count) (y ∷ next) e h = absurd (true≢false (some-injective true false e))
prefix_again-false (x ∷ prev) (suc count) (y ∷ next) e h = elim (result_cases (same_code x y)) [
  | inl b ↦ absurd (none≢some (sym (prefix_step x y prev next count none b) ∙ e))
  | inr (inl b) ↦
      true≢false (some-injective true false (sym (h zero x y (omega arith) refl refl) ∙ b))
  | inr (inr b) ↦
      prefix_again-false prev count next (sym (prefix_step x y prev next count (some true) b) ∙ e)
        (AllSame-tail x y prev next count h)
]

-- The first `suc k` codes of the sequence can stand for the last `k` codes seen, of `n`, and the
-- button that follows.
abbrev pub Fits : List LircCode → Name → Name → ℕ → ℕ → Type 0
Fits code remote button n zero = ⊥
Fits code remote button n (suc k) =
    AllSame code k (drop (n - k) code) × (code_at_matches code k remote button ≡ true)

module _ (code : List LircCode) (remote button : Name) (n : ℕ) where
  rebase_step :
      (k : ℕ) (b : Option Bool)
      → prefix_again code k (drop (n - k) code) ≡ b
      → rebase code remote button n (suc k) ≡ elim b as (λ _. Option ℕ) [
        | none ↦ none
        | some false ↦ rebase code remote button n k
        | some true ↦
            if code_at_matches code k remote button
            then some (suc k)
            else rebase code remote button n k
      ]
  unfolding rebase
  rebase_step k b e = rw (rebase, e) refl

  -- The longest.
  abbrev pub Longest : ℕ → ℕ → Type 0
  Longest bound m =
      (m ≤ bound)
      × ((m ≡ 0) ⊎ Fits code remote button n m)
      × ((j : ℕ) → m < j → j ≤ bound → ¬ (Fits code remote button n j))

  Longest-suc : (k m : ℕ) → Longest k m → ¬ (Fits code remote button n (suc k)) → Longest (suc k) m
  Longest-suc k m h miss = (
    omega (arith, h.0),
    h.1,
    λ j l u f. elim (Bool-cases (ltb j (suc k))) [
      | inl t ↦ h.2 j l (ground (arith, t)) f
      | inr t ↦
          let e : j ≡ suc k = ground (arith, t) in miss (subst (Fits code remote button n) e f)
    ],
  )

  pub rebase-Longest : (k m : ℕ) → rebase code remote button n k ≡ some m → Longest k m
  unfolding rebase
  rebase-Longest zero m e =
      let z : 0 ≡ m = some-injective 0 m e in
      (omega (arith, z), inl (sym z), λ j l u f. absurd (omega (arith, z)))
  rebase-Longest (suc k) m e = elim (result_cases (prefix_again code k (drop (n - k) code))) [
    | inl b ↦ absurd (none≢some (sym (rebase_step k none b) ∙ e))
    | inr (inl b) ↦
        Longest-suc k m (rebase-Longest k m (sym (rebase_step k (some false) b) ∙ e))
          (λ f. prefix_again-false code k (drop (n - k) code) b f.0)
    | inr (inr b) ↦ elim (Bool-cases (code_at_matches code k remote button)) [
      | inl x ↦
          let found : rebase code remote button n (suc k) ≡ some (suc k) =
            rebase_step k (some true) b ∙ rw (x, if◌then◌else◌) refl in
          let same : suc k ≡ m = some-injective (suc k) m (sym found ∙ e) in
          let fits : Fits code remote button n (suc k) =
            (prefix_again-true code k (drop (n - k) code) b, x) in
          (
            omega (arith, same),
            inr (subst (Fits code remote button n) same fits),
            λ j l u f. absurd (omega (arith, same)),
          )
      | inr x ↦
          let rest : rebase code remote button n (suc k) ≡ rebase code remote button n k =
            rebase_step k (some true) b ∙ rw (x, if◌then◌else◌) refl in
          Longest-suc k m (rebase-Longest k m (sym rest ∙ e)) (λ f. true≢false (sym f.1 ∙ x))
    ]
  ]

-- No code of the sequence is `LIRC_ALL` in one of its parts.
abbrev pub AllNamed : List LircCode → Type 0
AllNamed [] = Unit {0}
AllNamed (c ∷ cs) =
    (((n : Name) × (c.remote ≡ some n)) × ((m : Name) × (c.button ≡ some m))) × AllNamed cs

admits_code-some : (a : Option Name) (n : Name) → (b : Bool) × (admits_code a (some n) ≡ some b)
unfolding admits_code
admits_code-some none n = (true, refl)
admits_code-some (some m) n = (same_word m n, refl)

same_code-parts :
    (x y : LircCode) (b c : Bool)
    → admits_code x.remote y.remote ≡ some b
    → admits_code x.button y.button ≡ some c
    → (r : Bool) × (same_code x y ≡ some r)
unfolding same_code
same_code-parts x y true c e f = (c, rw (same_code, e) f)
same_code-parts x y false c e f = (false, rw (same_code, e) refl)

same_code-some :
    (x y : LircCode)
    → ((n : Name) × (y.remote ≡ some n))
    → ((m : Name) × (y.button ≡ some m))
    → (b : Bool) × (same_code x y ≡ some b)
unfolding same_code
same_code-some x y (n, e) (m, f) =
    let (b, g) = admits_code-some x.remote n in
    let (c, k) = admits_code-some x.button m in
    same_code-parts x y b c (ap (admits_code x.remote) e ∙ g) (ap (admits_code x.button) f ∙ k)

prefix-parts :
    (x y : LircCode) (prev next : List LircCode) (count : ℕ) (b c : Bool)
    → same_code x y ≡ some b
    → prefix_again prev count next ≡ some c
    → (r : Bool) × (prefix_again (x ∷ prev) (suc count) (y ∷ next) ≡ some r)
prefix-parts x y prev next count true c e f = (c, prefix_step x y prev next count (some true) e ∙ f)
prefix-parts x y prev next count false c e f =
    (false, prefix_step x y prev next count (some false) e)

prefix_again-some :
    (prev : List LircCode) (count : ℕ) (next : List LircCode)
    → AllNamed next
    → (b : Bool) × (prefix_again prev count next ≡ some b)
unfolding prefix_again
prefix_again-some prev zero next h = (true, refl)
prefix_again-some prev (suc count) [] h = (true, refl)
prefix_again-some [] (suc count) (y ∷ next) h = (true, refl)
prefix_again-some (x ∷ prev) (suc count) (y ∷ next) h =
    let (b, e) = same_code-some x y h.0.0 h.0.1 in
    let (c, f) = prefix_again-some prev count next h.1 in prefix-parts x y prev next count b c e f

AllNamed-drop : (k : ℕ) (code : List LircCode) → AllNamed code → AllNamed (drop k code)
AllNamed-drop zero code h = h
AllNamed-drop (suc k) [] h = tt
AllNamed-drop (suc k) (c ∷ code) h = AllNamed-drop k code h.1

rebase-parts :
    (code : List LircCode) (remote button : Name) (n k : ℕ) (b hit : Bool)
    → prefix_again code k (drop (n - k) code) ≡ some b
    → code_at_matches code k remote button ≡ hit
    → ((m : ℕ) × (rebase code remote button n k ≡ some m))
    → (m : ℕ) × (rebase code remote button n (suc k) ≡ some m)
rebase-parts code remote button n k false hit e f (m, g) =
    (m, rebase_step code remote button n k (some false) e ∙ g)
rebase-parts code remote button n k true true e f (m, g) =
    (suc k, rebase_step code remote button n k (some true) e ∙ rw (f, if◌then◌else◌) refl)
rebase-parts code remote button n k true false e f (m, g) =
    (m, rebase_step code remote button n k (some true) e ∙ rw (f, if◌then◌else◌) g)

pub rebase-some :
    (code : List LircCode) (remote button : Name) (n k : ℕ)
    → AllNamed code
    → (m : ℕ) × (rebase code remote button n k ≡ some m)
unfolding rebase
rebase-some code remote button n zero h = (0, refl)
rebase-some code remote button n (suc k) h =
    let (b, e) = prefix_again-some code k (drop (n - k) code) (AllNamed-drop (n - k) code h) in
    let rest = rebase-some code remote button n k h in
    rebase-parts code remote button n k b (code_at_matches code k remote button) e refl rest
