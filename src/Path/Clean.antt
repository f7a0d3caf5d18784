-- ===== src/Path/Clean.antt =====
-- What the components of a canonical path are.
use curls.Prelude.{
  ℕ, ◌≤◌, ◌≡◌, refl, ◌∙◌, inl, inr, Bool, true, false, ◌&&◌, ◌||◌, List, [], ◌∷◌, ◌++◌, arith,
}
use curls.Prelude.Tests.{not, ◌==◌, Bool-cases}
use curls.Prelude.Lists.{length, length-append}
use curls.Path.{slash, dot, same_string, tokens, drop_last, add_token, add_tokens}

abbrev pub has_slash : List ℕ → Bool
has_slash [] = false
has_slash (c ∷ cs) = (c == slash) || has_slash cs

-- A name: not empty, not "." and not "..", and without a slash.
unfoldable pub is_name : List ℕ → Bool
is_name token =
    not (same_string token (dot ∷ dot ∷ []))
    && (not (same_string token (dot ∷ [])) && (not (same_string token []) && not (has_slash token)))

abbrev pub all_names : List (List ℕ) → Bool
all_names [] = true
all_names (c ∷ cs) = is_name c && all_names cs

abbrev no_slashes : List (List ℕ) → Bool
no_slashes [] = true
no_slashes (c ∷ cs) = not (has_slash c) && no_slashes cs

has_slash-append : (xs : List ℕ) (c : ℕ) → has_slash (xs ++ c ∷ []) ≡ (has_slash xs || (c == slash))
has_slash-append [] c = ground arith
has_slash-append (x ∷ xs) c = ground (arith, has_slash-append xs c)

pub tokens-no_slashes :
    (token cs : List ℕ) → has_slash token ≡ false → no_slashes (tokens token cs) ≡ true
unfolding tokens
tokens-no_slashes token [] h = ground (arith, h)
tokens-no_slashes token (c ∷ cs) h = elim (Bool-cases (c == slash)) [
  | inl e ↦ rw (e, h) (tokens-no_slashes [] cs refl)
  | inr e ↦
      rw e (tokens-no_slashes (token ++ c ∷ []) cs (has_slash-append token c ∙ rw (h, e) refl))
]

all_names-append :
    (cs : List (List ℕ)) (c : List ℕ) → all_names (cs ++ c ∷ []) ≡ (all_names cs && is_name c)
all_names-append [] c = ground arith
all_names-append (d ∷ cs) c = ground (arith, all_names-append cs c)

drop_last-names : (cs : List (List ℕ)) → all_names cs ≡ true → all_names (drop_last cs) ≡ true
unfolding drop_last
drop_last-names [] h = refl
drop_last-names (c ∷ []) h = refl
drop_last-names (c ∷ d ∷ cs) h = ground (arith, drop_last-names (d ∷ cs))

drop_last-length : (cs : List (List ℕ)) → length (drop_last cs) ≤ length cs
unfolding drop_last
drop_last-length [] = omega arith
drop_last-length (c ∷ []) = omega arith
drop_last-length (c ∷ d ∷ cs) = omega (arith, drop_last-length (d ∷ cs))

add_token-names :
    (cs : List (List ℕ)) (t : List ℕ)
    → all_names cs ≡ true
    → has_slash t ≡ false
    → length cs ≤ 32
    → (all_names (add_token cs t) ≡ true) × (length (add_token cs t) ≤ 32)
unfolding add_token is_name
add_token-names cs t h n l = ground (
  arith,
  drop_last-names cs h,
  drop_last-length cs,
  all_names-append cs t,
  length-append cs (t ∷ []),
)

pub add_tokens-names :
    (cs ts : List (List ℕ))
    → all_names cs ≡ true
    → no_slashes ts ≡ true
    → length cs ≤ 32
    → (all_names (add_tokens cs ts) ≡ true) × (length (add_tokens cs ts) ≤ 32)
unfolding add_tokens
add_tokens-names cs [] h n l = (h, l)
add_tokens-names cs (t ∷ ts) h n l =
    let (names, few) = add_token-names cs t h (ground arith) l in
    add_tokens-names (add_token cs t) ts names (ground arith) few
