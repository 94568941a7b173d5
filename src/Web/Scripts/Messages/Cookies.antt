-- ===== src/Web/Scripts/Messages/Cookies.antt =====
-- getCookie (web/static/assets/js/scripts.js) finds the cookie of a name among others in
-- document.cookie.
use go_fire.Base.{
  ℕ, zero, ◌-◌, ◌≡◌, ◌≢◌, refl, sym, ap, ◌∙◌, true, false, List, [], ◌∷◌, ◌++◌, map, none, some,
  arith, All, append_assoc, append-nil, length,
}
use go_fire.Text.{Text, same, starts_with, split, split_from, split_str, split_str_from}
use go_fire.Web.Uri.{plus_to_space}
use go_fire.Web.Scripts.Messages.{Jar, pair_text, document_cookie, get_cookie, of_parts}

-- No character of the text is `c`.
abbrev pub Without : ℕ → Text → Type 0
Without c = All (λ d. d ≢ c)

-- A cookie of another name, as a browser stores them: no `=` in the name, and no `;`.
abbrev pub IsOther : Text → Text × Text → Type 0
IsOther name p = (same p.0 name ≡ false) × Without b'=' p.0 × Without b';' p.0 × Without b';' p.1

-- A cookie behind its separator, and several of them.
abbrev chunk : Text × Text → Text
chunk p = b';' ∷ b' ' ∷ pair_text p

abbrev chunks : Jar → Text
chunks [] = []
chunks (p ∷ jar) = chunk p ++ chunks jar

document_cookie-chunks :
    (p : Text × Text) (jar : Jar) → b';' ∷ b' ' ∷ document_cookie (p ∷ jar) ≡ chunks (p ∷ jar)
unfolding document_cookie
document_cookie-chunks p [] = sym (append-nil _)
document_cookie-chunks p (q ∷ jar) =
    ap (λ s. b';' ∷ b' ' ∷ (pair_text p ++ s)) (document_cookie-chunks q jar)

starts_with-other :
    (n name' v : Text)
    → Without b'=' n
    → Without b'=' name'
    → same n name' ≡ false
    → starts_with (name' ++ b'=' ∷ []) (n ++ b'=' ∷ v) ≡ false
starts_with-other [] [] v h k e = cc
starts_with-other [] (d ∷ name') v h k e = ground arith
starts_with-other (c ∷ n) [] v h k e = ground arith
starts_with-other (c ∷ n) (d ∷ name') v h k e = ground (arith, starts_with-other n name' v h.1 k.1)

starts_with-same : (p v : Text) → starts_with p (p ++ v) ≡ true
starts_with-same [] v = refl
starts_with-same (c ∷ p) v = ground (arith, starts_with-same p v)

split_from-skip :
    (sep p s : Text) → split_str_from (length p) sep (p ++ s) ≡ split_str_from zero sep s
unfolding split_str_from
split_from-skip sep [] s = refl
split_from-skip sep (c ∷ p) s = split_from-skip sep p s

space-plain : ◌≢◌ {A = ℕ} b' ' b';'
space-plain e = cc

equals-plain : ◌≢◌ {A = ℕ} b'=' b';'
equals-plain e = cc

split-miss :
    (sep : Text) (c : ℕ) (s : Text)
    → starts_with sep (c ∷ s) ≡ false
    → split_str_from zero sep (c ∷ s)
      ≡ (c ∷ (split_str_from zero sep s).0, (split_str_from zero sep s).1)
unfolding split_str_from
split-miss sep c s h = rw h refl

split-hit :
    (sep : Text) (c : ℕ) (s : Text)
    → starts_with sep (c ∷ s) ≡ true
    → split_str_from zero sep (c ∷ s)
      ≡ ([], (split_str_from (length sep - 1) sep s).0 ∷ (split_str_from (length sep - 1) sep s).1)
unfolding split_str_from
split-hit sep c s h = rw h refl

pub Without-append : (c : ℕ) (p q : Text) → Without c p → Without c q → Without c (p ++ q)
Without-append c [] q h k = k
Without-append c (d ∷ p) q h k = (h.0, Without-append c p q h.1 k)

module _ (name : Text) where
  -- The separator of getCookie.
  abbrev mark : Text
  mark = b';' ∷ b' ' ∷ name ++ b'=' ∷ []

  abbrev cut : Text → Text × List Text
  cut s = split_str_from zero mark s

  -- A text without `;` holds no separator.
  cut-plain : (p s : Text) → Without b';' p → cut (p ++ s) ≡ (p ++ (cut s).0, (cut s).1)
  unfolding split_str_from
  cut-plain [] s h = refl
  cut-plain (c ∷ p) s h = ground (arith, cut-plain p s h.1)

  other-miss :
      (p : Text × Text) (s : Text)
      → Without b'=' name
      → same p.0 name ≡ false
      → Without b'=' p.0
      → starts_with mark (chunk p ++ s) ≡ false
  other-miss p s plain differs no_eq =
      ap (starts_with (name ++ b'=' ∷ [])) (append_assoc p.0 (b'=' ∷ p.1) s)
      ∙ starts_with-other p.0 name (p.1 ++ s) no_eq plain differs

  cut-other :
      (p : Text × Text) (s : Text)
      → Without b'=' name
      → IsOther name p
      → cut (chunk p ++ s) ≡ (chunk p ++ (cut s).0, (cut s).1)
  cut-other p s plain (differs, no_eq, no_semi, no_semi') =
      split-miss mark b';' (b' ' ∷ pair_text p ++ s) (other-miss p s plain differs no_eq)
      ∙ ap (λ r. (b';' ∷ r.0, r.1))
          (cut-plain (b' ' ∷ pair_text p) s
            (space-plain, Without-append b';' p.0 _ no_semi (equals-plain, no_semi')))

  cut-chunks :
      (jar : Jar) (s : Text)
      → Without b'=' name
      → All (IsOther name) jar
      → cut (chunks jar ++ s) ≡ (chunks jar ++ (cut s).0, (cut s).1)
  cut-chunks [] s plain h = refl
  cut-chunks (p ∷ jar) s plain h = rw (append_assoc (chunk p) (chunks jar) s) (
      cut-other p (chunks jar ++ s) plain h.0
      ∙ ap (λ r. (chunk p ++ r.0, r.1)) (cut-chunks jar s plain h.1)
      ∙ ap (λ l. (l, (cut s).1)) (sym (append_assoc (chunk p) (chunks jar) (cut s).0)))

  cut-own :
      (value s : Text)
      → cut (chunk (name, value) ++ s) ≡ ([], (cut (value ++ s)).0 ∷ (cut (value ++ s)).1)
  cut-own value s =
      split-hit mark b';' (b' ' ∷ pair_text (name, value) ++ s) (
        ap (starts_with (name ++ b'=' ∷ [])) (again name)
        ∙ starts_with-same (name ++ b'=' ∷ []) (value ++ s))
      ∙ ap (λ r. ([], r.0 ∷ r.1))
          (ap (split_str_from (length mark - 1) mark) (ap (λ u. b' ' ∷ u) (again name))
            ∙ ap (λ n. split_str_from n mark (b' ' ∷ (name ++ b'=' ∷ []) ++ (value ++ s)))
                length-mark
            ∙ split_from-skip mark (b' ' ∷ name ++ b'=' ∷ []) (value ++ s))
    where
      again : (n : Text) → (n ++ b'=' ∷ value) ++ s ≡ (n ++ b'=' ∷ []) ++ (value ++ s)
      again [] = refl
      again (c ∷ n) = ap (λ u. c ∷ u) (again n)

      length-mark : length mark - 1 ≡ length (b' ' ∷ name ++ b'=' ∷ [])
      length-mark = omega arith

chunks-append : (xs ys : Jar) → chunks (xs ++ ys) ≡ chunks xs ++ chunks ys
chunks-append [] ys = refl
chunks-append (p ∷ xs) ys =
    ap (λ s. chunk p ++ s) (chunks-append xs ys)
    ∙ sym (append_assoc (chunk p) (chunks xs) (chunks ys))

cookie-chunks :
    (xs : Jar) (p : Text × Text) (ys : Jar)
    → b';' ∷ b' ' ∷ document_cookie (xs ++ p ∷ ys) ≡ chunks xs ++ (chunk p ++ chunks ys)
cookie-chunks [] p ys = document_cookie-chunks p ys
cookie-chunks (x ∷ xs) p ys =
    document_cookie-chunks x (xs ++ p ∷ ys) ∙ chunks-append (x ∷ xs) (p ∷ ys)

starts_with-nothing : (n : Text) → starts_with (n ++ b'=' ∷ []) [] ≡ false
starts_with-nothing [] = refl
starts_with-nothing (c ∷ n) = refl

-- What precedes the first `;`.
first-split :
    (value : Text) (jar : Jar)
    → Without b';' value
    → (split_from b';' (value ++ chunks jar)).0 ≡ value
unfolding split_from
first-split [] [] h = refl
first-split [] (p ∷ jar) h = refl
first-split (c ∷ value) jar h = ground (arith, first-split value jar h.1)

module _ (name : Text) (plain : Without b'=' name) where
  cut-chunks_end : (jar : Jar) → All (IsOther name) jar → cut name (chunks jar) ≡ (chunks jar, [])
  unfolding split_str_from
  cut-chunks_end jar h =
      ap (cut name) (sym (append-nil (chunks jar)))
      ∙ cut-chunks name jar [] plain h
      ∙ ap (λ s. (s, [])) (append-nil (chunks jar))

  cut-around :
      (before after : Jar) (value : Text)
      → All (IsOther name) before
      → All (IsOther name) after
      → Without b';' value
      → cut name (chunks before ++ (chunk (name, value) ++ chunks after))
        ≡ (chunks before, (value ++ chunks after) ∷ [])
  cut-around before after value hb ha hv =
      cut-chunks name before _ plain hb
      ∙ ap (λ r. (chunks before ++ r.0, r.1))
          (cut-own name value (chunks after)
            ∙ ap (λ r. ([], r.0 ∷ r.1))
                (cut-plain name value (chunks after) hv
                  ∙ ap (λ r. (value ++ r.0, r.1)) (cut-chunks_end after ha)))
      ∙ ap (λ s. (s, (value ++ chunks after) ∷ [])) (append-nil (chunks before))

  -- getCookie finds the cookie of the name.
  pub get_cookie-own :
      (before after : Jar) (value : Text)
      → All (IsOther name) before
      → All (IsOther name) after
      → Without b';' value
      → get_cookie (document_cookie (before ++ (name, value) ∷ after)) name
        ≡ some (map plus_to_space value)
  unfolding get_cookie split_str split
  get_cookie-own before after value hb ha hv =
      ap (λ s. let r = cut name s in of_parts (r.0 ∷ r.1))
        (cookie-chunks before (name, value) after)
      ∙ ap (λ r. of_parts (r.0 ∷ r.1)) (cut-around before after value hb ha hv)
      ∙ ap (λ s. some (map plus_to_space s)) (first-split value after hv)

  -- It finds none where there is none.
  pub get_cookie-none :
      (jar : Jar) → All (IsOther name) jar → get_cookie (document_cookie jar) name ≡ none
  unfolding get_cookie split_str split_str_from document_cookie
  get_cookie-none [] h = rw (starts_with-nothing name) refl
  get_cookie-none (p ∷ jar) h =
      ap (λ s. let r = cut name s in of_parts (r.0 ∷ r.1)) (document_cookie-chunks p jar)
      ∙ ap (λ r. of_parts (r.0 ∷ r.1)) (cut-chunks_end (p ∷ jar) h)
