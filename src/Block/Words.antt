-- ===== src/Block/Words.antt =====
-- A sector read as 32-bit words, least significant byte first.
use pintos.Prelude.{length, All, ℕ, ◌+◌, ◌*◌, ◌/◌, ◌%◌, ◌<◌, ◌≡◌, refl, ap₂, List, [], ◌∷◌, arith}

unfoldable pub words : List ℕ → List ℕ
words [] = []
words (a ∷ []) = []
words (a ∷ b ∷ []) = []
words (a ∷ b ∷ c ∷ []) = []
words (a ∷ b ∷ c ∷ d ∷ bs) = (a + 256 * b + 65536 * c + 16777216 * d) ∷ words bs

unfoldable pub bytes : List ℕ → List ℕ
bytes [] = []
bytes (w ∷ ws) = w % 256 ∷ w / 256 % 256 ∷ w / 65536 % 256 ∷ w / 16777216 % 256 ∷ bytes ws

-- Words written to a sector and read back are the same words.
pub words-bytes : (ws : List ℕ) → All (λ w. w < 4294967296) ws → words (bytes ws) ≡ ws
unfolding words bytes
words-bytes [] h = refl
words-bytes (w ∷ ws) h = ap₂ ◌∷◌ (omega arith) (words-bytes ws h.1)

pub length-bytes : (ws : List ℕ) → length (bytes ws) ≡ 4 * length ws
unfolding bytes
length-bytes [] = omega arith
length-bytes (w ∷ ws) = omega (arith, length-bytes ws)
