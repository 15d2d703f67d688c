-- ===== src/Iso/Matching/Chosen.antt =====
-- What the chosen provider is: match of backend/internal/iso/iso.go.
use helboot.Prelude.{
  ℕ, String, ◌≡◌, ◌≤◌, refl, sym, ap, ◌∙◌, ◌⊎◌, inl, inr, Bool, true, false, ◌&&◌, List, [], ◌∷◌,
  Option, none, some, arith, length, Bool-cases, first, first-none, first_holds, keep, All, Any,
}
use helboot.Provider.Manifest.{Manifest}
use helboot.Iso.Image.{Image}
use helboot.Iso.Matching.{
  matches_volume, fits_files, improves, most_specific, choose, match_provider,
}

abbrev pub file_count : Manifest → ℕ
file_count m = length m.detection.files

abbrev pub IsIn : Manifest → List Manifest → Type 0
IsIn m ms = Any (λ x. x ≡ m) ms

keep-All :
    (p : Manifest → Bool) (P : Manifest → Type 0) (ms : List Manifest)
    → All P (keep p ms)
    → All (λ m. p m ≡ true → P m) ms
keep-All p P [] h = tt
keep-All p P (m ∷ ms) h = elim (Bool-cases (p m)) [
  | inl e ↦ let h' = rw e at h in (λ k. h'.0, keep-All p P ms h'.1)
  | inr e ↦ (λ k. absurd (ground arith), keep-All p P ms (rw e at h))
]

keep-IsIn :
    (p : Manifest → Bool) (ms : List Manifest) (m : Manifest)
    → IsIn m (keep p ms)
    → IsIn m ms × (p m ≡ true)
keep-IsIn p [] m h = absurd h
keep-IsIn p (x ∷ ms) m h = elim (Bool-cases (p x)) [
  | inl e ↦ elim (rw e at h) [
    | inl same ↦ (inl same, ap p (sym same) ∙ e)
    | inr rest ↦ let (found, passes) = keep-IsIn p ms m rest in (inr found, passes)
  ]
  | inr e ↦ let (found, passes) = keep-IsIn p ms m (rw e at h) in (inr found, passes)
]

first-IsIn :
    (p : Manifest → Bool) (ms : List Manifest) (m : Manifest) → first p ms ≡ some m → IsIn m ms
first-IsIn p [] m h = cc
first-IsIn p (x ∷ ms) m h = elim (Bool-cases (p x)) [
  | inl e ↦ inl (ground arith)
  | inr e ↦ inr (first-IsIn p ms m (rw e at h))
]

or_head : (c m : Manifest) (cs : List Manifest) → ((some c ≡ some m) ⊎ IsIn m cs) → IsIn m (c ∷ cs)
or_head c m cs (inl e) = inl (cc)
or_head c m cs (inr h) = inr h

later :
    {best : Option Manifest} (c m : Manifest) (cs : List Manifest)
    → ((best ≡ some m) ⊎ IsIn m cs)
    → (best ≡ some m) ⊎ IsIn m (c ∷ cs)
later c m cs (inl e) = inl e
later c m cs (inr h) = inr (inr h)

All-map :
    {P Q : Manifest → Type 0} (ms : List Manifest)
    → ((m : Manifest) → P m → Q m)
    → All P ms
    → All Q ms
All-map [] f h = tt
All-map (m ∷ ms) f (a, h) = (f m a, All-map ms f h)

All-both :
    (P Q : Manifest → Type 0) (ms : List Manifest) → All P ms → All Q ms → All (λ m. P m × Q m) ms
All-both P Q [] h k = tt
All-both P Q (m ∷ ms) (a, h) (b, k) = ((a, b), All-both P Q ms h k)

module _ (img : Image) where
  abbrev pub fits : Manifest → Bool
  fits m = fits_files img m.detection.files

  abbrev FitsBest : Option Manifest → Type 0
  FitsBest none = Unit
  FitsBest (some b) = fits b ≡ true

  abbrev Reaches : Option Manifest → ℕ → Type 0
  Reaches none n = Unit
  Reaches (some b) n = file_count b ≤ n

  -- The best of those seen and those to come.
  abbrev Outcome : Option Manifest → List Manifest → Option Manifest → Type 0
  Outcome best cs none = (best ≡ none) × All (λ c. fits c ≡ false) cs
  Outcome best cs (some m) =
      (fits m ≡ true)
      × ((best ≡ some m) ⊎ IsIn m cs)
      × Reaches best (file_count m)
      × All (λ c. fits c ≡ true → file_count c ≤ file_count m) cs

  Outcome-taken :
      (best : Option Manifest) (c : Manifest) (cs : List Manifest) (r : Option Manifest)
      → (fits c && improves best c) ≡ true
      → Outcome (some c) cs r
      → Outcome best (c ∷ cs) r
  unfolding improves
  Outcome-taken best c cs none e (k, h) = cc
  Outcome-taken none c cs (some m) e (f, from, reached, h) =
      (f, inr (or_head c m cs from), tt, (λ k. reached, h))
  Outcome-taken (some b) c cs (some m) e (f, from, reached, h) =
      (f, inr (or_head c m cs from), ground arith, (λ k. reached, h))

  Outcome-left :
      (best : Option Manifest) (c : Manifest) (cs : List Manifest) (r : Option Manifest)
      → (fits c && improves best c) ≡ false
      → Outcome best cs r
      → Outcome best (c ∷ cs) r
  unfolding improves
  Outcome-left none c cs none e (k, h) = (k, (ground arith, h))
  Outcome-left (some b) c cs none e (k, h) = cc
  Outcome-left none c cs (some m) e (f, from, reached, h) =
      (f, later c m cs from, tt, (λ k. ground arith, h))
  Outcome-left (some b) c cs (some m) e (f, from, reached, h) =
      (f, later c m cs from, reached, (λ k. ground arith, h))

  most_specific-Outcome :
      (best : Option Manifest) (cs : List Manifest)
      → FitsBest best
      → Outcome best cs (most_specific img best cs)
  unfolding most_specific improves
  most_specific-Outcome none [] h = (refl, tt)
  most_specific-Outcome (some b) [] h = (h, inl refl, omega arith, tt)
  most_specific-Outcome best (c ∷ cs) h = elim (Bool-cases (fits c && improves best c)) [
    | inl e ↦
        rw (e, most_specific)
          (Outcome-taken best c cs (most_specific img (some c) cs) e
            (most_specific-Outcome (some c) cs (ground arith)))
    | inr e ↦
        rw (e, most_specific)
          (Outcome-left best c cs (most_specific img best cs) e (most_specific-Outcome best cs h))
  ]

module _ (glob : String → String → Bool) (all : List Manifest) (img : Image) (volume : String) where
  abbrev pub matches : Manifest → Bool
  matches m = matches_volume glob volume m.detection.volume_id_patterns

  -- A provider whose pattern matches, or, where no pattern matches, one whose file rules are met. No
  -- provider whose pattern matches and whose file rules are met has more of them.
  pub record Chosen (m : Manifest) : Type 0 where
    pub listed : IsIn m all
    pub reason : (matches m ≡ true) ⊎ (All (λ c. matches c ≡ false) all × (fits img m ≡ true))
    pub specific :
        All
          (λ c.
            matches c ≡ true
            → fits img c ≡ true
            → (fits img m ≡ true) × (file_count c ≤ file_count m))
          all

  abbrev pub Choice : Option Manifest → Type 0
  Choice none = All (λ c. (matches c ≡ false) × (fits img c ≡ false)) all
  Choice (some m) = Chosen m

  IsChosen-candidate :
      (m : Manifest) (ks : List Manifest)
      → keep matches all ≡ ks
      → IsIn m ks
      → All (λ c. fits img c ≡ true → (fits img m ≡ true) × (file_count c ≤ file_count m)) ks
      → Chosen m
  IsChosen-candidate m ks e among best =
      let (listed, passes) = keep-IsIn matches all m (rw e among) in
      record {
        listed = listed;
        reason = inl passes;
        specific =
            keep-All matches
              (λ c. fits img c ≡ true → (fits img m ≡ true) × (file_count c ≤ file_count m)) all
              (rw e best);
      }

  Choice-files :
      (r : Option Manifest) → first (fits img) all ≡ r → All (λ c. matches c ≡ false) all → Choice r
  Choice-files none e h =
      All-both (λ c. matches c ≡ false) (λ c. fits img c ≡ false) all h
        (first-none (fits img) all e)
  Choice-files (some m) e h = record {
    listed = first-IsIn (fits img) all m e;
    reason = inr (h, first_holds (fits img) all m e);
    specific = All-map all (λ c n k. absurd (ground arith)) h;
  }

  Choice-most :
      (c d : Manifest) (ks : List Manifest) (r : Option Manifest)
      → keep matches all ≡ c ∷ d ∷ ks
      → Outcome img none (c ∷ d ∷ ks) r
      → Choice (elim r [ some best ↦ some best | none ↦ some c ])
  Choice-most c d ks none e (_, none_fits) =
      IsChosen-candidate c (c ∷ d ∷ ks) e (inl refl)
        (All-map (c ∷ d ∷ ks) (λ k n f. absurd (ground arith)) none_fits)
  Choice-most c d ks (some m) e (f, from, _, most) =
      IsChosen-candidate m (c ∷ d ∷ ks) e (among from)
        (All-map (c ∷ d ∷ ks) (λ k h g. (f, h g)) most)
    where
      among : ((none ≡ some m) ⊎ IsIn m (c ∷ d ∷ ks)) → IsIn m (c ∷ d ∷ ks)
      among (inl n) = absurd (ground arith)
      among (inr h) = h

  Choice-choose : (ks : List Manifest) → keep matches all ≡ ks → Choice (choose img all ks)
  unfolding choose
  Choice-choose [] e = Choice-files (first (fits img) all) refl (
      All-map all (λ c h. elim (Bool-cases (matches c)) [ inl t ↦ absurd (h t) | inr t ↦ t ])
        (keep-All matches (λ c. ⊥) all (rw e tt)))
  Choice-choose (c ∷ []) e =
      IsChosen-candidate c (c ∷ []) e (inl refl) ((λ f. (f, omega arith)), tt)
  Choice-choose (c ∷ d ∷ ks) e =
      Choice-most c d ks (most_specific img none (c ∷ d ∷ ks)) e
        (most_specific-Outcome img none (c ∷ d ∷ ks) tt)

  -- The provider that match gives is a listed one whose pattern matches, or, where no pattern
  -- matches, one whose file rules are met; and if the file rules of any provider with a matching
  -- pattern are met, its own are met and no such provider has more of them. It gives none only
  -- where no pattern matches and no file rules are met.
  pub match_provider-Choice : Choice (match_provider glob all img volume)
  unfolding match_provider
  match_provider-Choice = Choice-choose (keep matches all) refl
