-- ===== src/TelegramBot/Chunks.antt =====
-- What cutting a text keeps.
use Prim.Native.String
use text.Mathlib.TextLemmas.{nil-append, cons-append}
use iot_ops_agent.Prelude.{
  ℕ, zero, suc, ◌-◌, ◌≤◌, ◌≡◌, refl, ap, String, false, List, [], ◌∷◌, All, arith, leb, Bool-cases,
  inl, inr,
}
use iot_ops_agent.Prelude.Text.{is_empty, first_chars}
use iot_ops_agent.Prelude.Text.Words.{text_length, text_length-first_chars}
use iot_ops_agent.TelegramBot.Sending.{
  rest_chars, chunks, split_telegram_text, max_telegram_message_chars,
}

-- `"".join(parts)`
abbrev pub concatenated : List String → String
concatenated [] = String.[]
concatenated (p ∷ ps) = String.◌++◌ p (concatenated ps)

append_nil : (s : String) → String.◌++◌ s String.[] ≡ s
append_nil String.[] = nil-append String.[]
append_nil (String.◌∷◌ c s) = rw cons-append (ap (String.◌∷◌ c) (append_nil s))

first-rest : (n : ℕ) (s : String) → String.◌++◌ (first_chars n s) (rest_chars n s) ≡ s
unfolding first_chars rest_chars
first-rest zero s = nil-append s
first-rest (suc n) String.[] = nil-append String.[]
first-rest (suc n) (String.◌∷◌ c s) = rw cons-append (ap (String.◌∷◌ c) (first-rest n s))

text_length-rest_chars :
    (n m : ℕ) (s : String) → text_length s ≤ m → text_length (rest_chars (suc n) s) ≤ m - 1
unfolding rest_chars
text_length-rest_chars n m String.[] h = omega arith
text_length-rest_chars n m (String.◌∷◌ c s) h = omega (arith, h, shorter n s)
  where
    shorter : (k : ℕ) (t : String) → text_length (rest_chars k t) ≤ text_length t
    shorter zero t = omega arith
    shorter (suc k) String.[] = omega arith
    shorter (suc k) (String.◌∷◌ d t) = omega (arith, shorter k t)

concatenated-chunks :
    (size fuel : ℕ) (s : String)
    → text_length s ≤ fuel
    → concatenated (chunks (suc size) fuel s) ≡ s
unfolding chunks
concatenated-chunks size zero String.[] h = refl
concatenated-chunks size zero (String.◌∷◌ c s) h = absurd (omega (arith, h))
concatenated-chunks size (suc n) String.[] h = refl
concatenated-chunks size (suc n) (String.◌∷◌ c s) h =
    rw
      (concatenated-chunks size n (rest_chars (suc size) (String.◌∷◌ c s))
        (omega (arith, text_length-rest_chars size (suc n) (String.◌∷◌ c s) h)))
      (first-rest (suc size) (String.◌∷◌ c s))

-- A part that may be posted.
abbrev pub Fits : String → Type 0
Fits part = (is_empty part ≡ false) × (text_length part ≤ max_telegram_message_chars)

chunks-Fits : (fuel : ℕ) (s : String) → All Fits (chunks max_telegram_message_chars fuel s)
unfolding chunks
chunks-Fits zero s = tt
chunks-Fits (suc n) String.[] = tt
chunks-Fits (suc n) (String.◌∷◌ c s) = (
  (unfold first_chars in refl, text_length-first_chars max_telegram_message_chars (String.◌∷◌ c s)),
  chunks-Fits n (rest_chars max_telegram_message_chars (String.◌∷◌ c s)),
)

-- The parts of a text that is not empty are not empty and no longer than 3900 characters, and joined
-- they are the text.
pub split_telegram_text-lossless :
    (text : String)
    → is_empty text ≡ false
    → (concatenated (split_telegram_text text) ≡ text) × All Fits (split_telegram_text text)
unfolding split_telegram_text
split_telegram_text-lossless text h =
    elim (Bool-cases (leb (text_length text) max_telegram_message_chars)) [
      | inl short ↦ rw short (append_nil text, ((h, ground arith), tt))
      | inr long ↦ rw long (
        concatenated-chunks 3899 (text_length text) text (omega arith),
        chunks-Fits (text_length text) text,
      )
    ]
