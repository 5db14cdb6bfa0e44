-- ===== src/SimpleMq/Http/Patterns.antt =====
-- The path parameters of simplemq/handler.go: validateQueueName and validateMessageID, with their
-- regular expressions as automata over code points.
use sakumock.Prelude.{
  byte_length, ℕ, zero, suc, String, List, [], ◌∷◌, Bool, true, false, ltb, leb, ◌==◌, ◌&&◌, ◌||◌,
  codes, if◌then◌else◌,
}

-- [0-9a-zA-Z]
abbrev pub is_alnum : ℕ → Bool
is_alnum c = leb 48 c && leb c 57 || (leb 97 c && leb c 122) || (leb 65 c && leb c 90)

-- [0-9a-f]
abbrev pub is_hex : ℕ → Bool
is_hex c = leb 48 c && leb c 57 || (leb 97 c && leb c 102)

-- ^[0-9a-zA-Z]+(-[0-9a-zA-Z]+)*$, where `inside` says that the last character was no hyphen.
unfoldable pub scan_name : Bool → List ℕ → Bool
scan_name inside [] = inside
scan_name inside (c ∷ s) =
    let word = scan_name true s in
    let hyphen = scan_name false s in
    if is_alnum c then word else if inside && c == 45 then hyphen else false

-- validateQueueName
unfoldable pub validate_queue_name : String → Bool
validate_queue_name name =
    let size = byte_length (codes name) in
    if ltb size 5 || ltb 64 size then false else scan_name false (codes name)

-- ^[0-9a-f]{8}-[0-9a-f]{4}-[0-9a-f]{4}-[0-9a-f]{4}-[0-9a-f]{12}$: `n` digits are left of a group, and
-- `groups` are those after it.
unfoldable pub scan_id : ℕ → List ℕ → List ℕ → Bool
scan_id zero [] [] = true
scan_id zero (m ∷ groups) [] = false
scan_id (suc n) groups [] = false
scan_id zero [] (c ∷ s) = false
scan_id zero (m ∷ groups) (c ∷ s) = let rest = scan_id m groups s in c == 45 && rest
scan_id (suc n) groups (c ∷ s) = let rest = scan_id n groups s in is_hex c && rest

-- validateMessageID
unfoldable pub validate_message_id : String → Bool
validate_message_id id = scan_id 8 (4 ∷ 4 ∷ 4 ∷ 12 ∷ []) (codes id)
