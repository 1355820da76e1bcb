-- ===== src/Directory/Entry.antt =====
-- struct dir_entry of filesys/directory.c as the 24 bytes of its memory: the sector in the bytes
-- 0 to 3, the name from byte 4 on, `in_use` in byte 19 and `isdir` in byte 20. Strings are lists of
-- bytes without the final NUL.
pub mod Fields
use pintos.Prelude.{
  length, get_or, set, take, drop, ◌==◌, if◌then◌else◌, ℕ, ◌+◌, ◌-◌, Bool, true, false, not, ◌&&◌,
  List, [], ◌∷◌, ◌++◌,
}
use pintos.Block.Words.{words, bytes}

abbrev pub entry_size : ℕ
entry_size = 24

abbrev pub name_max : ℕ
name_max = 14

abbrev pub DirEntry : Type 0
DirEntry = List ℕ

-- The string that starts with the first of these bytes.
unfoldable pub c_string : List ℕ → List ℕ
c_string [] = []
c_string (b ∷ bs) = let rest = c_string bs in if b == 0 then [] else b ∷ rest

-- !strcmp ()
unfoldable pub same_string : List ℕ → List ℕ → Bool
same_string [] [] = true
same_string [] (b ∷ bs) = false
same_string (a ∷ cs) [] = false
same_string (a ∷ cs) (b ∷ bs) = (a == b) && same_string cs bs

-- strlcpy () into `size` bytes: what it stores, from the first byte on.
abbrev pub strlcpy : ℕ → List ℕ → List ℕ
strlcpy size s = take (size - 1) s ++ (0 ∷ [])

abbrev pub bool_byte : Bool → ℕ
bool_byte b = if b then 1 else 0

unfoldable pub entry_sector : DirEntry → ℕ
entry_sector e = get_or (words (take 4 e)) 0 0

unfoldable pub entry_name : DirEntry → List ℕ
unfolding c_string
entry_name e = c_string (drop 4 e)

unfoldable pub entry_in_use : DirEntry → Bool
entry_in_use e = not (get_or e 19 0 == 0)

unfoldable pub entry_isdir : DirEntry → Bool
entry_isdir e = not (get_or e 20 0 == 0)

-- The bytes that a read puts into a variable, over those that it holds.
abbrev pub overlay : List ℕ → DirEntry → DirEntry
overlay bs e = bs ++ drop (length bs) e

unfoldable pub set_name : List ℕ → DirEntry → DirEntry
set_name name e = take 4 e ++ overlay (strlcpy (name_max + 1) name) (drop 4 e)

abbrev pub set_in_use : Bool → DirEntry → DirEntry
set_in_use b e = set e 19 (bool_byte b)

-- A new entry, over the bytes that the variable holds.
unfoldable pub fill_entry : List ℕ → ℕ → Bool → DirEntry → DirEntry
unfolding set_name
fill_entry name inode_sector isdir e =
    let named = set_name name (set_in_use true e) in
    let sector = overlay (bytes (inode_sector ∷ [])) named in set sector 20 (bool_byte isdir)
