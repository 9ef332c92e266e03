-- ===== src/Supervisor/Planning.antt =====
-- lipas/supervisor.py: the attempt indices of the retries that one tick plans.
use lipas.Prelude.{
  ◌==◌, ℕ_eq, String_eq, Option_eq, List_eq, Pair_eq, eq_of_beq, int_leb, ℤ_eq, ℤ, pos, negsuc,
  length, if◌then◌else◌, Bool-cases, ℕ, ◌+◌, String, ◌≡◌, refl, sym, ◌∙◌, ap, subst, inl, inr, Bool,
  true, false, Option, none, some, List, [], ◌∷◌, ◌++◌, append_assoc, arith,
}
use lipas.Dict.{Dict, get, put, get-put}
use lipas.Supervisor.Tick.{Action, retry, terminate, escalate, Pending, count_of, increment, plan}

-- The indices count on from `n`, and each is within the maximum of its action.
abbrev pub IsNumbered : ℕ → List (ℕ × ℤ) → Type 0
IsNumbered n [] = Unit
IsNumbered n ((index, most) ∷ rest) =
    (index ≡ n + 1) × (int_leb (pos index) most ≡ true) × IsNumbered (n + 1) rest

pub IsNumbered-append :
    (n : ℕ) (xs ys : List (ℕ × ℤ))
    → IsNumbered n xs
    → IsNumbered (n + length xs) ys
    → IsNumbered n (xs ++ ys)
IsNumbered-append n [] ys h k = subst (λ m. IsNumbered m ys) (omega arith) k
IsNumbered-append n ((index, most) ∷ xs) ys (is_next, within, h) k = (
  is_next,
  within,
  IsNumbered-append (n + 1) xs ys h (subst (λ m. IsNumbered m ys) (omega arith) k),
)

count_of-put :
    (target other : String) (n : ℕ) (counts : Dict String ℕ)
    → count_of other (put target n counts) ≡ (if target == other then n else count_of other counts)
unfolding count_of
count_of-put target other n counts = ground (arith, get-put target other n counts)

pub count_of-increment :
    (target other : String) (counts : Dict String ℕ)
    → count_of other (increment target counts)
      ≡ count_of other counts + (if target == other then 1 else 0)
count_of-increment target other counts = elim (Bool-cases (target == other)) [
  | inl same ↦
      let agrees : count_of target counts ≡ count_of other counts =
        ap (λ t. count_of t counts) (eq_of_beq target other same) in
      rw (count_of-put target other (count_of target counts + 1) counts, same, agrees) refl
  | inr differs ↦
      rw (count_of-put target other (count_of target counts + 1) counts, differs) (omega arith)
]

pub empty_tick : (n : ℕ) (target : String) → n + count_of target [] ≡ n
unfolding count_of get
empty_tick n target = omega arith

one_more :
    (a b c : ℕ) (hit : Bool) → c ≡ b + (if hit then 1 else 0) → hit ≡ true → a + c ≡ a + b + 1
one_more a b c hit h is_hit = ground arith

no_more : (a b c : ℕ) (hit : Bool) → c ≡ b + (if hit then 1 else 0) → hit ≡ false → a + c ≡ a + b
no_more a b c hit h is_miss = ground arith

already_under :
    (most : ℤ) (n : ℕ) → int_leb most (pos n) ≡ false → int_leb (pos (n + 1)) most ≡ true
already_under (pos m) n h = ground arith
already_under (negsuc m) n h = absurd (cc h)

next-IsNumbered :
    (target other : String) (prior in_tick : Dict String ℕ) (most : ℤ) (already : ℕ)
    (later : List (ℕ × ℤ))
    → count_of other prior + count_of other in_tick ≡ already
    → int_leb most (pos already) ≡ false
    → IsNumbered (count_of target prior + count_of target (increment other in_tick)) later
    → IsNumbered
        (count_of target prior + count_of target in_tick)
        ((if other == target then (already + 1, most) ∷ [] else []) ++ later)
next-IsNumbered target other prior in_tick most already later is_already under h =
    let grown = count_of-increment other target in_tick in
    elim (Bool-cases (other == target)) [
      | inl hit ↦
          let here : already ≡ count_of target prior + count_of target in_tick =
            sym is_already
            ∙ ap (λ t. count_of t prior + count_of t in_tick) (eq_of_beq other target hit) in
          rw (hit) (
            ap (λ n. n + 1) here,
            already_under most already under,
            subst (λ n. IsNumbered n later)
                (one_more (count_of target prior) (count_of target in_tick) _ (other == target)
                  grown hit)
                h,
          )
      | inr miss ↦ rw (miss) (
          subst (λ n. IsNumbered n later)
            (no_more (count_of target prior) (count_of target in_tick) _ (other == target) grown
              miss)
            h)
    ]

module _ {F : Type 0} where
  -- The index and the maximum of a retry of the target.
  unfoldable pub attempt_of : String → Action F → ℕ → List (ℕ × ℤ)
  attempt_of target (retry other most reason) index =
      if other == target then (index, most) ∷ [] else []
  attempt_of target (terminate reason) index = []
  attempt_of target (escalate reason payload) index = []

  unfoldable pub attempts : String → List (Pending F) → List (ℕ × ℤ)
  attempts target [] = []
  attempts target (p ∷ pending) =
      attempt_of target p.action p.attempt_index ++ attempts target pending

  pub attempts-append :
      (target : String) (xs ys : List (Pending F))
      → attempts target (xs ++ ys) ≡ attempts target xs ++ attempts target ys
  unfolding attempts
  attempts-append target [] ys = refl
  attempts-append target (p ∷ xs) ys =
      ap (λ l. attempt_of target p.action p.attempt_index ++ l) (attempts-append target xs ys)
      ∙ sym (
          append_assoc (attempt_of target p.action p.attempt_index) (attempts target xs)
            (attempts target ys))

  pub plan-IsNumbered :
      (target : String) (prior in_tick : Dict String ℕ) (rules : List (String × Option (Action F)))
      → IsNumbered
          (count_of target prior + count_of target in_tick)
          (attempts target (plan prior in_tick rules))
  unfolding plan attempts attempt_of
  plan-IsNumbered target prior in_tick [] = tt
  plan-IsNumbered target prior in_tick ((name, none) ∷ rules) =
      plan-IsNumbered target prior in_tick rules
  plan-IsNumbered target prior in_tick ((name, some (terminate reason)) ∷ rules) =
      plan-IsNumbered target prior in_tick rules
  plan-IsNumbered target prior in_tick ((name, some (escalate reason payload)) ∷ rules) =
      plan-IsNumbered target prior in_tick rules
  plan-IsNumbered target prior in_tick ((name, some (retry other most reason)) ∷ rules) =
      let already = count_of other prior + count_of other in_tick in
      let IsPlanned = λ (b : Bool). IsNumbered (count_of target prior + count_of target in_tick) (
        attempts target (elim b as (λ _. List (Pending F)) [
          | true ↦ plan prior in_tick rules
          | false ↦
              record { action = retry other most reason; rule = name; attempt_index = already + 1 }
              ∷ plan prior (increment other in_tick) rules
        ])) in
      elim (Bool-cases (int_leb most (pos (count_of other prior + count_of other in_tick)))) [
        | inl over ↦ subst IsPlanned (sym over) (plan-IsNumbered target prior in_tick rules)
        | inr under ↦ subst IsPlanned (sym under) (
            next-IsNumbered target other prior in_tick most already _ refl under
              (plan-IsNumbered target prior (increment other in_tick) rules))
      ]
