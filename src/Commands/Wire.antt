-- ===== src/Commands/Wire.antt =====
-- What a batch means: a list of commands, and the bytes that stand for them.
use atlas_client.Prelude.{
  ℕ, ◌+◌, ◌/◌, ◌%◌, ◌≤◌, ◌<◌, ◌≡◌, refl, ◌∙◌, ap, sym, List, [], ◌∷◌, ◌++◌, arith, length,
  length-append, All, All-append, append_assoc,
}
use atlas_client.Commands.{htons_bytes, ntohs, host, Cmd}

-- One command on the wire: type, length, value.
abbrev pub encode_cmd : Cmd → List ℕ
encode_cmd c = htons_bytes c.type ++ (htons_bytes (length c.value) ++ c.value)

abbrev pub encode : List Cmd → List ℕ
encode [] = []
encode (c ∷ cs) = encode_cmd c ++ encode cs

abbrev pub IsByte : ℕ → Type 0
IsByte b = b < 256

-- A command whose fields fit the words of the header.
abbrev pub IsCmd : Cmd → Type 0
IsCmd c = (c.type < 65536) × (length c.value < 65536) × All IsByte c.value

-- A word comes back from network order, and from the host's.
pub ntohs-htons : (n : ℕ) → ntohs (n / 256) (n % 256) ≡ n
ntohs-htons n = omega arith

pub host-ntohs : (n : ℕ) → host (n % 256) (n / 256) ≡ n
host-ntohs n = omega arith

-- The bytes of a word that was read from two bytes.
pub ntohs_high : (high low : ℕ) → low < 256 → ntohs high low / 256 ≡ high
ntohs_high high low h = omega arith

pub ntohs_low : (high low : ℕ) → low < 256 → ntohs high low % 256 ≡ low
ntohs_low high low h = omega arith

pub length-encode_cmd : (c : Cmd) → length (encode_cmd c) ≡ 4 + length c.value
length-encode_cmd c = omega arith

-- An encoding has four bytes or more for each command, so its length is fuel enough.
pub length-le-encode : (cs : List Cmd) → length cs ≤ length (encode cs)
length-le-encode [] = omega arith
length-le-encode (c ∷ cs) = omega (arith, length-le-encode cs, length-append c.value (encode cs))

pub encode-append : (cs ds : List Cmd) → encode (cs ++ ds) ≡ encode cs ++ encode ds
encode-append [] ds = refl
encode-append (c ∷ cs) ds =
    ap (λ r. encode_cmd c ++ r) (encode-append cs ds)
    ∙ ap header (sym (append_assoc c.value (encode cs) (encode ds)))
  where
    header : List ℕ → List ℕ
    header r = htons_bytes c.type ++ (htons_bytes (length c.value) ++ r)

pub encode-IsByte : (cs : List Cmd) → All IsCmd cs → All IsByte (encode cs)
encode-IsByte [] h = tt
encode-IsByte (c ∷ cs) (h, hs) =
    All-append IsByte (encode_cmd c) (encode cs)
      (omega arith, (omega arith, (omega arith, (omega arith, h.2)))) (encode-IsByte cs hs)
