-- ===== src/DataPlane/Values.antt =====
-- A payload of the documented form, an identity, a colon and a value.
use atlas_client.Prelude.{
  ℕ, ◌≤◌, ◌≡◌, ◌≢◌, refl, sym, ap, ◌∙◌, true, false, none, some, List, [], ◌∷◌, ◌++◌, arith, length,
  contains, append-nil,
}
use atlas_client.Telemetry.Payload.{until_nul}
use atlas_client.DataPlane.{Doubles, Timespec, RepInfo, skip, token, strtok_from, strtok, colon}
use atlas_client.DataPlane.Reputation.{
  has_sample, sample_of, keep_sample, value_found, client_found, text_found, message_text,
  strtok_in, handle_data,
}

-- Text that `strtok` takes as one token.
pub record IsWord (d : ℕ) (xs : List ℕ) : Type 0 where
  pub solid : contains d xs ≡ false
  pub nonempty : xs ≢ []

skip-IsWord : (d : ℕ) (xs ys : List ℕ) → IsWord d xs → skip d (xs ++ ys) ≡ xs ++ ys
unfolding skip
skip-IsWord d [] ys h = absurd (h.nonempty refl)
skip-IsWord d (c ∷ cs) ys h = ground (arith, h.solid)

token-append : (d : ℕ) (xs ys : List ℕ) → contains d xs ≡ false → token d (xs ++ d ∷ ys) ≡ (xs, ys)
unfolding token
token-append d [] ys h = ground arith
token-append d (c ∷ cs) ys h = ground (arith, token-append d cs ys)

token-end : (d : ℕ) (xs : List ℕ) → contains d xs ≡ false → token d xs ≡ (xs, [])
unfolding token
token-end d [] h = refl
token-end d (c ∷ cs) h = ground (arith, token-end d cs)

strtok_from-cons : (d : ℕ) (xs : List ℕ) → xs ≢ [] → strtok_from d xs ≡ some (token d xs)
unfolding strtok_from
strtok_from-cons d [] h = absurd (h refl)
strtok_from-cons d (c ∷ cs) h = refl

pub strtok-append : (d : ℕ) (xs ys : List ℕ) → IsWord d xs → strtok d (xs ++ d ∷ ys) ≡ some (xs, ys)
unfolding strtok
strtok-append d xs ys h =
    ap (strtok_from d) (skip-IsWord d xs (d ∷ ys) h)
    ∙ strtok_from-cons d (xs ++ d ∷ ys) (append-nonempty xs (d ∷ ys) h.nonempty)
    ∙ ap (λ t. some t) (token-append d xs ys h.solid)
  where
    append-nonempty : (xs ys : List ℕ) → xs ≢ [] → xs ++ ys ≢ []
    append-nonempty [] ys h e = h refl
    append-nonempty (x ∷ xs) ys h e = cc

pub strtok-end : (d : ℕ) (xs : List ℕ) → IsWord d xs → strtok d xs ≡ some (xs, [])
unfolding strtok
strtok-end d xs h =
    ap (strtok_from d) (ap (skip d) (sym (append-nil xs)) ∙ skip-IsWord d xs [] h ∙ append-nil xs)
    ∙ strtok_from-cons d xs h.nonempty
    ∙ ap (λ t. some t) (token-end d xs h.solid)

until_nul_lem : (xs : List ℕ) → contains 0 xs ≡ false → until_nul xs ≡ xs
unfolding until_nul
until_nul_lem [] h = refl
until_nul_lem (x ∷ xs) h = ground (arith, until_nul_lem xs)

message_text_lem :
    (xs : List ℕ) → contains 0 xs ≡ false → length xs ≤ 255 → message_text xs ≡ some (false, xs)
unfolding message_text
message_text_lem xs h short = ground (arith, until_nul_lem xs h)

strtok_in_lem : (text : List ℕ) → strtok_in false text ≡ some (strtok colon text)
unfolding strtok_in
strtok_in_lem text = refl

text_found_lem :
    {D : Type 0} (fp : Doubles D) (stale : ℕ) (now : Timespec) (id text : List ℕ) (r : RepInfo D)
    → IsWord colon id
    → IsWord colon text
    → r.feedback_active ≡ true
    → text_found fp stale now (some (false, id ++ colon ∷ text)) r
      ≡ keep_sample fp stale now id (fp.atof text) r
unfolding text_found client_found value_found
text_found_lem fp stale now id text r w w' active =
    rw
      (
        strtok_in_lem (id ++ colon ∷ text),
        strtok-append colon id text w,
        strtok_in_lem text,
        strtok-end colon text w',
        active,
      )
      refl

-- A payload that a device publishes for a value, in an active window.
pub record IsValue {D : Type 0} (id text : List ℕ) (r : RepInfo D) : Type 0 where
  pub id_word : IsWord colon id
  pub text_word : IsWord colon text
  pub no_zero : contains 0 (id ++ colon ∷ text) ≡ false
  pub short : length (id ++ colon ∷ text) ≤ 255
  pub active : r.feedback_active ≡ true

handle_data-nonempty :
    {D : Type 0} (fp : Doubles D) (stale : ℕ) (now : Timespec) (xs : List ℕ) (r : RepInfo D)
    → xs ≢ []
    → handle_data fp stale now xs r ≡ text_found fp stale now (message_text xs) r
unfolding handle_data
handle_data-nonempty fp stale now [] r h = absurd (h refl)
handle_data-nonempty fp stale now (x ∷ xs) r h = refl

cons-nonempty : (xs ys : List ℕ) (y : ℕ) → xs ++ y ∷ ys ≢ []
cons-nonempty [] ys y e = cc
cons-nonempty (x ∷ xs) ys y e = cc

module _ {D : Type 0} (fp : Doubles D) (stale : ℕ) (now : Timespec) (id text : List ℕ) where
  handle_data-keep_sample :
      (r : RepInfo D)
      → IsValue id text r
      → handle_data fp stale now (id ++ colon ∷ text) r
        ≡ keep_sample fp stale now id (fp.atof text) r
  handle_data-keep_sample r v =
      handle_data-nonempty fp stale now (id ++ colon ∷ text) r (cons-nonempty id text colon)
      ∙ ap (λ t. text_found fp stale now t r)
          (message_text_lem (id ++ colon ∷ text) v.no_zero v.short)
      ∙ text_found_lem fp stale now id text r v.id_word v.text_word v.active

  -- In an active window that has room, the value of an identity that sent none in this window and that fits
  -- its array is stored behind the others, with the time and the score of it.
  pub handle_data-sampled :
      (r : RepInfo D)
      → IsValue id text r
      → has_sample fp id r.samples ≡ false
      → length r.samples ≤ 255
      → length id ≤ 63
      → handle_data fp stale now (id ++ colon ∷ text) r
        ≡ some (record r { samples = r.samples ++ sample_of fp stale now id (fp.atof text) r ∷ [] })
  unfolding keep_sample
  handle_data-sampled r v new room fits = handle_data-keep_sample r v ∙ ground (arith, new)

  -- Only the first value of an identity counts: while the window is active and has no more than its 256
  -- values, a later value of the identity changes nothing.
  pub handle_data-repeated :
      (r : RepInfo D)
      → IsValue id text r
      → has_sample fp id r.samples ≡ true
      → handle_data fp stale now (id ++ colon ∷ text) r ≡ some r
  unfolding keep_sample
  handle_data-repeated r v old = handle_data-keep_sample r v ∙ ground (arith, old)

  -- In an active window with 256 values, the value of an identity that sent none in this window is written
  -- behind the arrays.
  pub window_overrun :
      (r : RepInfo D)
      → IsValue id text r
      → has_sample fp id r.samples ≡ false
      → length r.samples ≡ 256
      → handle_data fp stale now (id ++ colon ∷ text) r ≡ none
  unfolding keep_sample
  window_overrun r v new full = handle_data-keep_sample r v ∙ ground (arith, new)
