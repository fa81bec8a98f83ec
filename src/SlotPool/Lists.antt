-- ===== src/SlotPool/Lists.antt =====
-- Lists of entries that lose some of them.
use tig_swarm_demo.Prelude.{
  ℕ, ◌+◌, ◌≤◌, ◌<◌, ◌≡◌, refl, Bool, false, none, some, List, [], ◌∷◌, arith, ◌==◌, length, select,
  delete, All, Bool-cases, Option-cases, inl, inr,
}
use tig_swarm_demo.SlotPool.Slots.{Entry, lowest, has_ticket}

pub length-delete : {A : Type 0} (p : A → Bool) (xs : List A) → length (delete p xs) ≤ length xs
unfolding delete
length-delete p [] = omega arith
length-delete p (x ∷ xs) = ground (arith, length-delete p xs)

abbrev pub AllBelow : ℕ → List Entry → Type 0
AllBelow n entries = All (λ e. e.ticket < n) entries

abbrev pub AllAbove : ℕ → List Entry → Type 0
AllAbove n entries = All (λ e. n < e.ticket) entries

pub AllBelow-suc : (n : ℕ) (entries : List Entry) → AllBelow n entries → AllBelow (n + 1) entries
AllBelow-suc n [] h = tt
AllBelow-suc n (e ∷ entries) h = (omega (arith, h.0), AllBelow-suc n entries h.1)

-- A ticket above all others is not among them.
pub has_ticket-AllBelow :
    (n : ℕ) (entries : List Entry) → AllBelow n entries → has_ticket n entries ≡ false
unfolding has_ticket select
has_ticket-AllBelow n [] h = refl
has_ticket-AllBelow n (e ∷ entries) h = ground (arith, h.0, has_ticket-AllBelow n entries h.1)

abbrev pub AtLeast : ℕ → List Entry → Type 0
AtLeast n entries = All (λ e. n ≤ e.ticket) entries

weaken : (m n : ℕ) (entries : List Entry) → m ≤ n → AtLeast n entries → AtLeast m entries
weaken m n [] le h = tt
weaken m n (e ∷ entries) le h = (omega (arith, h.0), weaken m n entries le h.1)

-- Without a lowest ticket there is no entry.
lowest-none : (entries : List Entry) (m : ℕ) → lowest entries ≡ none → AtLeast m entries
unfolding lowest
lowest-none [] m h = tt
lowest-none (e ∷ entries) m h = absurd (cc h)

-- The lowest ticket bounds all the others.
pub lowest-AtLeast : (entries : List Entry) (m : ℕ) → lowest entries ≡ some m → AtLeast m entries
unfolding lowest
lowest-AtLeast [] m h = tt
lowest-AtLeast (e ∷ entries) m h = elim (Option-cases (lowest entries)) [
  | inl nothing ↦ (ground (arith, nothing, h), lowest-none entries m nothing)
  | inr (low, found) ↦ (
    ground (arith, found, h),
    weaken m low entries (ground (arith, found, h)) (lowest-AtLeast entries low found),
  )
]

-- Of entries that are all at least `n`, those that are not `n` are above it.
pub AllAbove-delete :
    (n : ℕ) (entries : List Entry)
    → AtLeast n entries
    → AllAbove n (delete (λ e. e.ticket == n) entries)
unfolding delete
AllAbove-delete n [] h = tt
AllAbove-delete n (e ∷ entries) h = elim (Bool-cases (e.ticket == n)) [
  | inl same ↦ rw same (AllAbove-delete n entries h.1)
  | inr other ↦ rw other (ground (arith, h.0), AllAbove-delete n entries h.1)
]
