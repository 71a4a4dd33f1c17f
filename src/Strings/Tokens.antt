-- ===== src/Strings/Tokens.antt =====
-- strtok_r on words that a delimiter separates.
use qproto.Common.{
  ℕ, zero, suc, ◌≤◌, ◌<◌, ◌≡◌, refl, arith, true, false, List, [], ◌∷◌, ◌++◌, none, some, length,
  length-append,
}
use qproto.Strings.{is_in, skip, scan, strtok, tokens_up_to, tokens}

-- A character that is there, and is no delimiter; and a word of such.
abbrev pub IsPlain : List ℕ → List ℕ → Type 0
IsPlain delims [] = Unit
IsPlain delims (c ∷ w) = (is_in delims c ≡ false) × IsPlain delims w

abbrev pub IsWord : List ℕ → List ℕ → Type 0
IsWord delims [] = ⊥
IsWord delims (c ∷ w) = IsPlain delims (c ∷ w)

abbrev pub AllWords : List ℕ → List (List ℕ) → Type 0
AllWords delims [] = Unit
AllWords delims (w ∷ ws) = IsWord delims w × AllWords delims ws

-- The words with a delimiter between any two.
abbrev pub join : ℕ → List (List ℕ) → List ℕ
join d [] = []
join d (w ∷ []) = w
join d (w ∷ v ∷ ws) = w ++ (d ∷ join d (v ∷ ws))

pub IsPlain-append :
    (delims w v : List ℕ) → IsPlain delims w → IsPlain delims v → IsPlain delims (w ++ v)
IsPlain-append delims [] v p q = q
IsPlain-append delims (c ∷ w) v (h, p) q = (h, IsPlain-append delims w v p q)

pub IsPlain-of_word : (delims w : List ℕ) → IsWord delims w → IsPlain delims w
IsPlain-of_word delims [] p = absurd p
IsPlain-of_word delims (c ∷ w) p = p

pub IsWord-append :
    (delims w v : List ℕ) → IsWord delims w → IsPlain delims v → IsWord delims (w ++ v)
IsWord-append delims [] v p q = absurd p
IsWord-append delims (c ∷ w) v p q = IsPlain-append delims (c ∷ w) v p q

scan-append :
    (delims w : List ℕ) (d : ℕ) (rest : List ℕ)
    → is_in delims d ≡ true
    → IsPlain delims w
    → scan delims (w ++ (d ∷ rest)) ≡ (w, rest)
scan-append delims [] d rest e p = rw e refl
scan-append delims (c ∷ w) d rest e (h, p) = rw (h, scan-append delims w d rest e p) refl

scan-plain : (delims w : List ℕ) → IsPlain delims w → scan delims w ≡ (w, [])
scan-plain delims [] p = refl
scan-plain delims (c ∷ w) (h, p) = rw (h, scan-plain delims w p) refl

skip-word :
    (delims : List ℕ) (c : ℕ) (s : List ℕ) → is_in delims c ≡ false → skip delims (c ∷ s) ≡ c ∷ s
skip-word delims c s h = rw h refl

-- The first word, and the rest after the delimiter.
pub strtok-append :
    (delims w : List ℕ) (d : ℕ) (rest : List ℕ)
    → is_in delims d ≡ true
    → IsWord delims w
    → strtok delims (w ++ (d ∷ rest)) ≡ (some w, rest)
unfolding strtok
strtok-append delims [] d rest e p = absurd p
strtok-append delims (c ∷ w) d rest e p =
    rw (skip-word delims c (w ++ (d ∷ rest)) (p.0))
      (rw (scan-append delims (c ∷ w) d rest e p) refl)

pub strtok-word : (delims w : List ℕ) → IsWord delims w → strtok delims w ≡ (some w, [])
unfolding strtok
strtok-word delims [] p = absurd p
strtok-word delims (c ∷ w) p =
    rw (skip-word delims c w (p.0)) (rw (scan-plain delims (c ∷ w) p) refl)

pub strtok-nil : (delims : List ℕ) → strtok delims [] ≡ (none, [])
unfolding strtok
strtok-nil delims = refl

tokens_up_to-join :
    (n : ℕ) (delims : List ℕ) (d : ℕ) (ws : List (List ℕ))
    → is_in delims d ≡ true
    → AllWords delims ws
    → length ws < n
    → tokens_up_to n delims (join d ws) ≡ ws
unfolding tokens_up_to
tokens_up_to-join zero delims d ws e p h = elim h [ ]
tokens_up_to-join (suc n) delims d [] e p h = refl
tokens_up_to-join (suc n) delims d (w ∷ []) e (p, q) h =
    ground (arith, strtok-word delims w p, tokens_up_to-join n delims d [] e tt (omega arith))
tokens_up_to-join (suc n) delims d (w ∷ v ∷ ws) e (p, q) h =
    let first = strtok-append delims w d (join d (v ∷ ws)) e p in
    let more = tokens_up_to-join n delims d (v ∷ ws) e q (omega arith) in
    ground (arith, first, more)

length-join :
    (delims : List ℕ) (d : ℕ) (ws : List (List ℕ))
    → AllWords delims ws
    → length ws ≤ length (join d ws)
length-join delims d [] p = omega arith
length-join delims d ([] ∷ ws) p = absurd (p.0)
length-join delims d ((c ∷ w) ∷ []) p = omega arith
length-join delims d ((c ∷ w) ∷ v ∷ ws) (p, q) =
    omega (arith, length-join delims d (v ∷ ws) q, length-append {0} w (d ∷ join d (v ∷ ws)))

-- Words that are joined by a delimiter are the tokens again.
pub tokens-join :
    (delims : List ℕ) (d : ℕ) (ws : List (List ℕ))
    → is_in delims d ≡ true
    → AllWords delims ws
    → tokens delims (join d ws) ≡ ws
unfolding tokens
tokens-join delims d ws e p =
    tokens_up_to-join (suc (length (join d ws))) delims d ws e p
      (omega (arith, length-join delims d ws p))
