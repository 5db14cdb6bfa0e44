-- ===== src/SimpleMq/Http/QueueNames.antt =====
-- The pattern of queue names in simplemq/handler.go, as a grammar.
use sakumock.SimpleMq.Http.Patterns.{is_alnum, scan_name, validate_queue_name}
use sakumock.Prelude.{
  byte_length, ℕ, ◌≤◌, length, codes, String, ◌≡◌, refl, sym, ◌∙◌, ◌↔◌, List, [], ◌∷◌, ◌++◌, Bool,
  true, false, ◌==◌, All, arith, Bool-cases, inl, inr,
}

-- [0-9a-zA-Z]+
abbrev pub IsWord : List ℕ → Type 0
IsWord [] = ¬ Unit {0}
IsWord (c ∷ w) = All (λ d. is_alnum d ≡ true) (c ∷ w)

-- Words with single hyphens between them
pub data IsName : List ℕ → Type 0 where
  word : (w : List ℕ) → IsWord w → IsName w
  joined : (w s : List ℕ) → IsWord w → IsName s → IsName (w ++ 45 ∷ s)

IsWord-cons : (c : ℕ) (w : List ℕ) → is_alnum c ≡ true → IsWord w → IsWord (c ∷ w)
IsWord-cons c [] a h = absurd (h tt)
IsWord-cons c (d ∷ w) a h = (a, h)

IsName-cons : (c : ℕ) (s : List ℕ) → is_alnum c ≡ true → IsName s → IsName (c ∷ s)
IsName-cons c s a (word w h) = word (c ∷ w) (IsWord-cons c w a h)
IsName-cons c s a (joined w t h n) = joined (c ∷ w) t (IsWord-cons c w a h) n

-- What the automaton accepts after a hyphen, and after a character of a word
IsName-of_scan :
    (s : List ℕ)
    → (scan_name false s ≡ true → IsName s)
      × ((c : ℕ) → is_alnum c ≡ true → scan_name true s ≡ true → IsName (c ∷ s))
unfolding scan_name
IsName-of_scan [] = (λ h. absurd (cc h), λ c a h. word (c ∷ []) (a, tt))
IsName-of_scan (d ∷ s) =
    let (after_hyphen, after_word) = IsName-of_scan s in
    elim (Bool-cases (is_alnum d)) [
      | inl alnum ↦ (
        λ h. after_word d alnum (rw (scan_name, alnum) at h),
        λ c a h. IsName-cons c (d ∷ s) a (after_word d alnum (rw (scan_name, alnum) at h)),
      )
      | inr other ↦ (
        λ h. absurd (cc (rw (scan_name, other) at h)),
        λ c a h. elim (Bool-cases (d == 45)) [
          | inl hyphen ↦
              let path : 45 ≡ d = ground (arith, hyphen) in
              rw (sym path)
                (joined (c ∷ []) s (a, tt) (after_hyphen (rw (scan_name, other, hyphen) at h)))
          | inr neither ↦ absurd (cc (rw (scan_name, other, neither) at h))
        ],
      )
    ]

scan_words : (w : List ℕ) → All (λ d. is_alnum d ≡ true) w → scan_name true w ≡ true
unfolding scan_name
scan_words [] h = refl
scan_words (c ∷ w) (a, h) = rw (scan_name, a) (scan_words w h)

scan_joined :
    (w s : List ℕ)
    → All (λ d. is_alnum d ≡ true) w
    → scan_name true (w ++ 45 ∷ s) ≡ scan_name false s
unfolding scan_name
scan_joined [] s h = refl
scan_joined (c ∷ w) s (a, h) = rw (scan_name, a) (scan_joined w s h)

scan_of_name : (s : List ℕ) → IsName s → scan_name false s ≡ true
unfolding scan_name
scan_of_name s (word [] h) = absurd (h tt)
scan_of_name s (word (c ∷ w) (a, h)) = rw (scan_name, a) (scan_words w h)
scan_of_name s (joined [] t h n) = absurd (h tt)
scan_of_name s (joined (c ∷ w) t (a, h) n) =
    rw (scan_name, a) (scan_joined w t h ∙ scan_of_name t n)

scan_name-IsName : (s : List ℕ) → scan_name false s ≡ true ↔ IsName s
scan_name-IsName s = ((IsName-of_scan s).0, scan_of_name s)

-- A name is of ASCII, so its bytes are its characters.
byte_length-scan_name :
    (inside : Bool) (s : List ℕ) → scan_name inside s ≡ true → byte_length s ≡ length s
unfolding scan_name
byte_length-scan_name inside [] h = refl
byte_length-scan_name inside (c ∷ s) h =
    ground (arith, byte_length-scan_name true s, byte_length-scan_name false s)

-- validateQueueName accepts exactly the words of letters and digits with single hyphens between
-- them, of 5 to 64 characters in all.
pub validate_queue_name-IsName :
    (name : String)
    → validate_queue_name name ≡ true
      ↔ IsName (codes name) × (5 ≤ length (codes name)) × (length (codes name) ≤ 64)
unfolding validate_queue_name
validate_queue_name-IsName name =
    let (sound, complete) = scan_name-IsName (codes name) in
    let bytes = byte_length-scan_name false (codes name) in
    elim (Bool-cases (scan_name false (codes name))) [
      | inl match ↦
          let size = bytes match in
          (
            λ h. (sound match, ground (arith, size, h), ground (arith, size, h)),
            λ h. let (_, low, high) = h in ground (arith, size, low, high, match),
          )
      | inr mismatch ↦
          (λ h. absurd (ground (arith, h, mismatch)), λ h. absurd (cc (complete h.0, mismatch)))
    ]
