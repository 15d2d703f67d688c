-- ===== src/Filepath/Laws.antt =====
-- Joining to a directory a path that was cleaned from the root: filepath.Join in securePath of
-- backend/internal/network/tftp.go.
use Prim.Native.String.{◌++◌}
use text.Mathlib.TextLemmas.{append_assoc, cons-append, nil-append, cons≢nil}
use Prim.Native.Char.{Char, code}
use helboot.Prelude.{
  eq-false, nat_eq, Bool-cases, inl, inr, String, ◌≡◌, refl, ap, sym, ◌∙◌, Bool, true, false, List,
  [], ◌∷◌, ◌++◌ as ◌+++◌, arith, ◌==◌, String_eq, if◌then◌else◌, contains_char, All,
}
use helboot.Filepath.{
  slash, add_char, elements, is_rooted, up, visit, walk, joined, render, cleaned, clean, join,
}

abbrev pub HasNoSlash : String → Type 0
HasNoSlash w = contains_char slash w ≡ false

-- A name that leads one step down.
pub record IsName (w : String) : Type 0 where
  pub plain : HasNoSlash w
  pub not_empty : (w == "") ≡ false
  pub not_here : (w == ".") ≡ false
  pub not_up : (w == "..") ≡ false

elements_single : (w : String) → HasNoSlash w → elements w ≡ w ∷ []
unfolding elements contains_char
elements_single String.[] h = refl
elements_single (String.◌∷◌ c s) h = ground (arith, elements_single s)

add_char-cons :
    (c : Char) (b : Bool) (ws : List String)
    → (v : String) × (vs : List String) × ((if b then "" ∷ ws else add_char c ws) ≡ v ∷ vs)
unfolding add_char
add_char-cons c true ws = ("", ws, refl)
add_char-cons c false [] = (String.◌∷◌ c "", [], refl)
add_char-cons c false (w ∷ ws) = (String.◌∷◌ c w, ws, refl)

elements-cons : (s : String) → (w : String) × (ws : List String) × (elements s ≡ w ∷ ws)
unfolding elements
elements-cons String.[] = ("", [], refl)
elements-cons (String.◌∷◌ c s) = add_char-cons c (nat_eq (code c) slash) (elements s)

add_char-append :
    (c : Char) (b : Bool) (ws vs : List String) (w : String) (rest : List String)
    → ws ≡ w ∷ rest
    → (if b then "" ∷ (ws +++ vs) else add_char c (ws +++ vs))
      ≡ (if b then "" ∷ ws else add_char c ws) +++ vs
unfolding add_char
add_char-append c true ws vs w rest h = refl
add_char-append c false ws vs w rest h = rw h refl

pub slash-append : (t : String) → "/" ++ t ≡ String.◌∷◌ "/" t
slash-append t = cons-append "/" "" t ∙ ap (String.◌∷◌ "/") (nil-append t)

elements-append : (s t : String) → elements (s ++ ("/" ++ t)) ≡ elements s +++ elements t
unfolding elements
elements-append String.[] t = rw (nil-append, slash-append) refl
elements-append (String.◌∷◌ c s) t =
    let (w, rest, e) = elements-cons s in
    ap elements (cons-append c s ("/" ++ t))
    ∙ ap (λ ws. if nat_eq (code c) slash then "" ∷ ws else add_char c ws) (elements-append s t)
    ∙ add_char-append c (nat_eq (code c) slash) (elements s) (elements t) w rest e

add_char-HasNoSlash :
    (c : Char) (ws : List String)
    → All HasNoSlash ws
    → nat_eq (code c) slash ≡ false
    → All HasNoSlash (add_char c ws)
unfolding add_char contains_char
add_char-HasNoSlash c [] h k = ground arith
add_char-HasNoSlash c (w ∷ ws) (p, rest) k = (rw (k, contains_char) p, rest)

pub elements-HasNoSlash : (s : String) → All HasNoSlash (elements s)
unfolding elements contains_char
elements-HasNoSlash String.[] = (refl, tt)
elements-HasNoSlash (String.◌∷◌ c s) = elim (Bool-cases (nat_eq (code c) slash)) [
  | inl e ↦ rw e (refl, elements-HasNoSlash s)
  | inr e ↦ rw e (add_char-HasNoSlash c (elements s) (elements-HasNoSlash s) e)
]

walk-append :
    (r : Bool) (seen ws vs : List String) → walk r seen (ws +++ vs) ≡ walk r (walk r seen ws) vs
unfolding walk
walk-append r seen [] vs = refl
walk-append r seen (w ∷ ws) vs = walk-append r (visit r seen w) ws vs

visit-IsName : (r : Bool) (seen : List String) (w : String) → IsName w → visit r seen w ≡ w ∷ seen
unfolding visit
visit-IsName r seen w n = ground arith

up-All : (seen : List String) → All IsName seen → All IsName (up true seen)
unfolding up
up-All [] h = h
up-All (d ∷ ds) (n, rest) = rw (n.not_up) rest

visit-All :
    (seen : List String) (w : String)
    → All IsName seen
    → HasNoSlash w
    → All IsName (visit true seen w)
unfolding visit
visit-All seen w h p = elim (Bool-cases (w == "")) [
  | inl e ↦ rw e h
  | inr e ↦ elim (Bool-cases (w == ".")) [
    | inl here ↦ rw (e, here) h
    | inr here ↦ elim (Bool-cases (w == "..")) [
      | inl above ↦ rw (e, here, above) (up-All seen h)
      | inr above ↦
          rw (e, here, above)
            (record { plain = p; not_empty = e; not_here = here; not_up = above }, h)
    ]
  ]
]

-- From the root, only names are left.
pub walk-All :
    (seen ws : List String) → All IsName seen → All HasNoSlash ws → All IsName (walk true seen ws)
unfolding walk
walk-All seen [] h k = h
walk-All seen (w ∷ ws) h (p, rest) = walk-All (visit true seen w) ws (visit-All seen w h p) rest

-- Names that are joined and cleaned again come back, above what was there.
walk-joined :
    (r : Bool) (seen : List String) (w : String) (ws : List String)
    → All IsName (w ∷ ws)
    → walk r seen (elements (joined (w ∷ ws))) ≡ w ∷ ws +++ seen
unfolding joined walk
walk-joined r seen w [] (n, rest) = rw (elements_single w n.plain) (visit-IsName r seen w n)
walk-joined r seen w (v ∷ ws) (n, rest) =
    ap (walk r seen) (elements-append (joined (v ∷ ws)) w)
    ∙ walk-append r seen (elements (joined (v ∷ ws))) (elements w)
    ∙ ap (λ st. walk r st (elements w)) (walk-joined r seen v ws rest)
    ∙ ap (walk r (v ∷ ws +++ seen)) (elements_single w n.plain)
    ∙ visit-IsName r (v ∷ ws +++ seen) w n

joined-append :
    (w : String) (ws : List String) (d : String) (ds : List String)
    → joined (w ∷ ws +++ d ∷ ds) ≡ joined (d ∷ ds) ++ ("/" ++ joined (w ∷ ws))
unfolding joined
joined-append w [] d ds = refl
joined-append w (v ∷ ws) d ds =
    ap (λ u. u ++ ("/" ++ w)) (joined-append v ws d ds)
    ∙ append_assoc (joined (d ∷ ds)) ("/" ++ joined (v ∷ ws)) ("/" ++ w)
    ∙ ap (λ u. joined (d ∷ ds) ++ u) (append_assoc "/" (joined (v ∷ ws)) ("/" ++ w))

is_rooted-append : (a b : String) → (a == "") ≡ false → is_rooted (a ++ ("/" ++ b)) ≡ is_rooted a
unfolding is_rooted
is_rooted-append String.[] b h = cc
is_rooted-append (String.◌∷◌ c s) b h = rw (cons-append c s ("/" ++ b)) refl

pub render-append :
    (r : Bool) (w : String) (ws : List String) (d : String) (ds : List String)
    → render r (w ∷ ws +++ d ∷ ds) ≡ render r (d ∷ ds) ++ ("/" ++ joined (w ∷ ws))
unfolding render
render-append true w ws d ds =
    ap (λ u. "/" ++ u) (joined-append w ws d ds)
    ∙ sym (append_assoc "/" (joined (d ∷ ds)) ("/" ++ joined (w ∷ ws)))
render-append false w ws d ds = joined-append w ws d ds

walk-rooted :
    (r : Bool) (d : String) (ds ws : List String)
    → All IsName ws
    → walk r (d ∷ ds) (elements ("/" ++ joined ws)) ≡ ws +++ d ∷ ds
unfolding elements walk visit joined
walk-rooted r d ds [] n = ap (λ u. walk r (d ∷ ds) (elements u)) (slash-append "")
walk-rooted r d ds (w ∷ ws) n =
    ap (λ u. walk r (d ∷ ds) (elements u)) (slash-append (joined (w ∷ ws)))
    ∙ walk-joined r (d ∷ ds) w ws n

cleaned-join :
    (r : Bool) (dir : String) (d : String) (ds ws : List String)
    → cleaned r dir ≡ d ∷ ds
    → All IsName ws
    → cleaned r (dir ++ ("/" ++ ("/" ++ joined ws))) ≡ ws +++ d ∷ ds
unfolding cleaned
cleaned-join r dir d ds ws h n =
    ap (walk r []) (elements-append dir ("/" ++ joined ws))
    ∙ walk-append r [] (elements dir) (elements ("/" ++ joined ws))
    ∙ ap (λ seen. walk r seen (elements ("/" ++ joined ws))) h
    ∙ walk-rooted r d ds ws n

cons_not_empty : (c : Char) (s : String) → (String.◌∷◌ c s == "") ≡ false
cons_not_empty c s = eq-false (String.◌∷◌ c s) "" cons≢nil

slash_not_empty : (t : String) → (("/" ++ t) == "") ≡ false
slash_not_empty t = rw (slash-append t) (cons_not_empty "/" t)

pub cleaned_not_empty :
    (dir : String) (d : String) (ds : List String)
    → cleaned (is_rooted dir) dir ≡ d ∷ ds
    → (dir == "") ≡ false
unfolding cleaned is_rooted elements walk visit
cleaned_not_empty String.[] d ds h = cc
cleaned_not_empty (String.◌∷◌ c s) d ds h = cons_not_empty c s

-- A path below the root, joined to a directory other than `/` and `.`.
pub join-rooted :
    (dir : String) (d : String) (ds ws : List String)
    → cleaned (is_rooted dir) dir ≡ d ∷ ds
    → All IsName ws
    → join dir ("/" ++ joined ws) ≡ render (is_rooted dir) (ws +++ d ∷ ds)
unfolding join clean
join-rooted dir d ds ws h n =
    let present = cleaned_not_empty dir d ds h in
    rw (present, join, slash_not_empty (joined ws), is_rooted-append dir ("/" ++ joined ws) present)
      (ap (render (is_rooted dir)) (cleaned-join (is_rooted dir) dir d ds ws h n))

pub clean-rooted : (p : String) → clean ("/" ++ p) ≡ "/" ++ joined (cleaned true ("/" ++ p))
unfolding clean is_rooted render
clean-rooted p = rw (slash-append p) refl
