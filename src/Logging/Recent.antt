-- ===== src/Logging/Recent.antt =====
-- The ring of backend/internal/logging/ring.go against the plain list of what was logged.
use helboot.Prelude.{
  ℕ, zero, suc, ◌+◌, ◌-◌, ◌≤◌, ◌<◌, ◌≡◌, refl, ap, ◌∙◌, ◌⊎◌, inl, inr, Bool, ◌&&◌, List, [], ◌∷◌,
  some, arith, ltb, leb, ℕ_eq, if◌then◌else◌, keep, length, Bool-cases,
}
use helboot.Logging.{Entry, Ring, parse_level, buffered, slot_of, walk, entries}
use helboot.Logging.Slots.{recorded, nth, Holds, recorded-Holds, recorded_size}

unfoldable pub take {ℓ} : {A : Type ℓ} → ℕ → List A → List A
take zero xs = []
take (suc n) [] = []
take (suc n) (x ∷ xs) = x ∷ take n xs

unfoldable pub drop {ℓ} : {A : Type ℓ} → ℕ → List A → List A
drop zero xs = xs
drop (suc n) [] = []
drop (suc n) (x ∷ xs) = drop n xs

-- The first `limit` entries, or all of them for 0.
abbrev pub capped : ℕ → List Entry → List Entry
capped limit xs = if ltb 0 limit then take limit xs else xs

abbrev pub at_level : ℕ → Entry → Bool
at_level min_level e = leb min_level (parse_level e.level)

-- What is left to take after `out` entries.
abbrev rest_of : ℕ → ℕ → List Entry → List Entry
rest_of limit out xs = if ltb 0 limit then take (limit - out) xs else xs

drop-nth : (i : ℕ) (h : List Entry) (x : Entry) → nth i h ≡ some x → drop i h ≡ x ∷ drop (suc i) h
unfolding nth drop
drop-nth zero [] x e = absurd (ground arith)
drop-nth zero (y ∷ ys) x e = ground arith
drop-nth (suc i) [] x e = absurd (ground arith)
drop-nth (suc i) (y ∷ ys) x e = drop-nth i ys x e

take_zero : (n : ℕ) (xs : List Entry) → n ≡ 0 → take n xs ≡ []
unfolding take
take_zero n xs e = rw e refl

take_nil : (n : ℕ) → take {A = Entry} n [] ≡ []
unfolding take
take_nil zero = refl
take_nil (suc n) = refl

take-suc : (n m : ℕ) (x : Entry) (xs : List Entry) → n ≡ suc m → take n (x ∷ xs) ≡ x ∷ take m xs
unfolding take
take-suc n m x xs e = rw e refl

rest_of_suc :
    (limit out : ℕ) (x : Entry) (xs : List Entry)
    → (limit ≡ 0) ⊎ (out < limit)
    → rest_of limit out (x ∷ xs)
      ≡ x ∷ (if ltb 0 limit && leb limit (out + 1) then [] else rest_of limit (out + 1) xs)
rest_of_suc limit out x xs room = elim (Bool-cases (ltb 0 limit)) [
  | inl some_limit ↦ elim (Bool-cases (leb limit (out + 1))) [
    | inl last ↦
        let one = take-suc (limit - out) 0 x xs (ground arith) in
        let none_left = take_zero 0 xs refl in ground arith
    | inr more ↦
        let one = take-suc (limit - out) (limit - (out + 1)) x xs (ground arith) in ground arith
  ]
  | inr no_limit ↦ ground arith
]

walk_lem :
    (r : Ring) (h : List Entry) (min_level limit left i out : ℕ)
    → Holds r h
    → i + left ≤ buffered r
    → (limit ≡ 0) ⊎ (out < limit)
    → walk r min_level limit left i out
      ≡ rest_of limit out (keep (at_level min_level) (take left (drop i h)))
unfolding walk take
walk_lem r h min_level limit zero i out v fits room =
    let nothing = take_nil (limit - out) in ground arith
walk_lem r h min_level limit (suc left) i out v fits room =
    let x = r.slots (slot_of r i) in
    let at = drop-nth i h x (v.stored i (omega arith)) in
    let skip = walk_lem r h min_level limit left (suc i) out v (omega arith) room in
    let more = walk_lem r h min_level limit left (suc i) (out + 1) v (omega arith) in
    let step =
      rest_of_suc limit out x (keep (at_level min_level) (take left (drop (suc i) h))) room in
    rw at (elim (Bool-cases (ltb (parse_level x.level) min_level)) [
      | inl low ↦ ground arith
      | inr high ↦ elim (Bool-cases (ltb 0 limit && leb limit (out + 1))) [
        | inl last ↦ ground arith
        | inr on ↦
            let next : (limit ≡ 0) ⊎ (out + 1 < limit) = ground arith in
            let rest = more next in ground arith
      ]
    ])

take_all : (n : ℕ) (xs : List Entry) → length xs ≤ n → take n xs ≡ xs
unfolding take
take_all zero [] le = refl
take_all zero (x ∷ xs) le = absurd (omega arith)
take_all (suc n) [] le = refl
take_all (suc n) (x ∷ xs) le = ap (λ ys. x ∷ ys) (take_all n xs (omega arith))

take-buffered : (r : Ring) (h : List Entry) → Holds r h → take (buffered r) h ≡ take r.size h
unfolding buffered
take-buffered r h v = elim (Bool-cases r.full) [
  | inl full ↦ rw full refl
  | inr part ↦
      let n = v.not_full part in
      let below = v.below in
      let all = take_all r.next h (omega arith) in
      let all' = take_all r.size h (omega arith) in ground arith
]

-- After any entries were logged to a new ring, Entries returns the newest ones that the ring has
-- room for, newest first, without those below the level, and cut to the limit unless it is 0.
pub entries-recorded :
    (size min_level limit : ℕ) (h : List Entry)
    → entries (recorded size h) min_level limit
      ≡ capped limit (keep (at_level min_level) (take (if ltb size 1 then 1 else size) h))
unfolding entries drop
entries-recorded size min_level limit h =
    let r = recorded size h in
    let v = recorded-Holds size h in
    let walked = walk_lem r h min_level limit (buffered r) 0 0 v (omega arith) (ground arith) in
    let newest = take-buffered r h v in
    let cut : limit - 0 ≡ limit = omega arith in
    walked
    ∙ ap
        (λ n.
          if ltb 0 limit
          then take n (keep (at_level min_level) (take (buffered r) h))
          else keep (at_level min_level) (take (buffered r) h))
        cut
    ∙ ap (λ xs. capped limit (keep (at_level min_level) xs)) newest
    ∙ ap (λ n. capped limit (keep (at_level min_level) (take n h))) (recorded_size size h)
