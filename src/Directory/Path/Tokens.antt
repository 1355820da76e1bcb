-- ===== src/Directory/Path/Tokens.antt =====
-- The tokens of a path in find_dir() of filesys/directory.c.
-- A name of a path: not empty, and without a slash.
use pintos.Prelude.{All, ◌==◌, ℕ, ◌≡◌, refl, ap, ◌∙◌, ◌≢◌, false, List, [], ◌∷◌, ◌++◌, arith}
use pintos.Directory.Path.{slash, tokens_from, tokens, add_token}

abbrev pub NoSlash : List ℕ → Type 0
NoSlash [] = Unit {0}
NoSlash (b ∷ bs) = (b ≢ slash) × NoSlash bs

abbrev pub IsName : List ℕ → Type 0
IsName [] = ⊥
IsName (b ∷ bs) = NoSlash (b ∷ bs)

-- The path of some names, each after a slash.
abbrev pub path_of : List (List ℕ) → List ℕ
path_of [] = []
path_of (t ∷ ts) = slash ∷ (t ++ path_of ts)

append_assoc : (xs : List ℕ) (y : ℕ) (ys : List ℕ) → (xs ++ (y ∷ [])) ++ ys ≡ xs ++ (y ∷ ys)
append_assoc [] y ys = refl
append_assoc (x ∷ xs) y ys = ap (λ r. x ∷ r) (append_assoc xs y ys)

append_nil : (xs : List ℕ) → xs ++ [] ≡ xs
append_nil [] = refl
append_nil (x ∷ xs) = ap (λ r. x ∷ r) (append_nil xs)

tokens_from-append :
    (token t bs : List ℕ) → NoSlash t → tokens_from token (t ++ bs) ≡ tokens_from (token ++ t) bs
unfolding tokens_from
tokens_from-append token [] bs h = rw (append_nil token) refl
tokens_from-append token (x ∷ t) bs (n, h) =
    let more : (x == slash) ≡ false = ground arith in
    rw more (
      tokens_from-append (token ++ (x ∷ [])) t bs h
      ∙ ap (λ r. tokens_from r bs) (append_assoc token x t))

add_name : (t : List ℕ) (ts : List (List ℕ)) → IsName t → add_token t ts ≡ t ∷ ts
add_name [] ts h = absurd h
add_name (b ∷ bs) ts h = refl

name-NoSlash : (t : List ℕ) → IsName t → NoSlash t
name-NoSlash [] h = absurd h
name-NoSlash (b ∷ bs) h = h

tokens_from-path_of :
    (token : List ℕ) (ts : List (List ℕ))
    → All IsName ts
    → tokens_from token (path_of ts) ≡ add_token token ts
unfolding tokens_from
tokens_from-path_of token [] h = refl
tokens_from-path_of token (t ∷ ts) (n, h) = ap (add_token token) (
    tokens_from-append [] t (path_of ts) (name-NoSlash t n)
    ∙ tokens_from-path_of t ts h
    ∙ add_name t ts n)

-- The tokens of a path are the names that it was made of, in their order, if none of them is empty
-- and none has a slash.
pub tokens-path_of : (ts : List (List ℕ)) → All IsName ts → tokens (path_of ts) ≡ ts
unfolding tokens
tokens-path_of ts h = tokens_from-path_of [] ts h
