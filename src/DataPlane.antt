-- ===== src/DataPlane.antt =====
-- The data plane, which publishes and consumes sensor values over MQTT: src/data_plane/atlas_data_plane.c.
-- Floating-point numbers are a type `D` with the operations that the source uses. `none` is an access
-- outside an array or through a null pointer.
pub mod Reputation
pub mod Arrivals
pub mod Options
pub mod Start
pub mod Window
pub mod Scores
pub mod Rounds
pub mod Arriving
pub mod Reports
pub mod Round
pub mod Exchange
pub mod Started
pub mod Topics
pub mod Values
pub mod Samples
mod Examples
use atlas_client.Prelude.{
  ℕ, zero, suc, ◌+◌, ◌-◌, ◌*◌, Bool, true, false, Option, none, some, List, [], ◌∷◌, ◌++◌, ℤ, pos,
  negsuc, ◌==◌, ltb, if◌then◌else◌, codes,
}
use atlas_client.Library.{Library}
use atlas_client.Library.Requests.{Feedback}

-- `less`, `minus`, `times` and `divided` are the operators; `tenths n` is n / 10, `of_int` and `to_u16` are
-- conversions, `to_long` is the one to a long and back, `to_float` is the storing in a float, and `print`
-- is "%f".
pub record Doubles (D : Type 0) : Type 0 where
  pub less : D → D → Bool
  pub plus : D → D → D
  pub minus : D → D → D
  pub times : D → D → D
  pub divided : D → D → D
  pub tenths : ℕ → D
  pub of_int : ℤ → D
  pub to_u16 : D → ℕ
  pub to_long : D → D
  pub to_float : D → D
  pub atof : List ℕ → D
  pub print : D → List ℕ

-- struct timespec.
pub record Timespec : Type 0 where
  pub tv_sec : ℕ
  pub tv_nsec : ℕ

-- publish_info_t. A packet length of 0 stands for the simulated value. `buffer` is the size of what
-- `publish_msg` points to.
pub record Publisher (D : Type 0) : Type 0 where
  pub feature : List ℕ
  pub publish_rate : ℤ
  pub base_value : D
  pub deviation : D
  pub qos : ℤ
  pub packet_length : ℤ
  pub buffer : ℕ

-- An element of the arrays `sensor_val` and `feedback`.
pub record Sample (D : Type 0) : Type 0 where
  pub sensor_val : D
  pub feedback : Feedback

-- reputation_t. The elements below `feedback_length` are `samples`.
pub record RepInfo (D : Type 0) : Type 0 where
  pub feature : List ℕ
  pub query_rate : ℤ
  pub target_value : ℤ
  pub window_size : ℤ
  pub feedback_active : Bool
  pub samples : List (Sample D)
  pub window_start : Timespec

-- A message that is published.
pub record Publication : Type 0 where
  pub topic : List ℕ
  pub payload : List ℕ
  pub qos : ℤ

-- The static variables, what was published and subscribed, newest first, and the library's. A
-- subscription has its QoS.
pub record Plane (D : Type 0) : Type 0 where
  pub publish_str : List (Publisher D)
  pub rep_info : RepInfo D
  pub identity : Option (List ℕ)
  pub published : List Publication
  pub subscribed : List (List ℕ × ℤ)
  pub library : Library

abbrev pub request_topic : List ℕ
request_topic = codes "atlas/request/"

abbrev pub data_topic : List ℕ
data_topic = codes "atlas/data/"

-- `strtok`: behind the delimiters, up to the next one, and what stands behind that.
unfoldable pub skip : ℕ → List ℕ → List ℕ
skip d [] = []
skip d (c ∷ cs) = let rest = skip d cs in if c == d then rest else c ∷ cs

unfoldable pub token : ℕ → List ℕ → List ℕ × List ℕ
token d [] = ([], [])
token d (c ∷ cs) = let (word, rest) = token d cs in if c == d then ([], cs) else (c ∷ word, rest)

unfoldable pub strtok_from : ℕ → List ℕ → Option (List ℕ × List ℕ)
strtok_from d [] = none
strtok_from d (c ∷ cs) = some (token d (c ∷ cs))

unfoldable pub strtok : ℕ → List ℕ → Option (List ℕ × List ℕ)
strtok d text = strtok_from d (skip d text)

abbrev pub colon : ℕ
colon = 58

-- A difference of two numbers.
abbrev pub minus : ℕ → ℕ → ℤ
minus a b = if ltb a b then negsuc (b - a - 1) else pos (a - b)

-- A second in milliseconds, as ints.
abbrev pub sec_to_ms : ℤ → ℤ
sec_to_ms (pos n) = pos (n * 1000)
sec_to_ms (negsuc n) = negsuc (n * 1000 + 999)

-- diff_in_ms, before the conversion to milliseconds: the second and the nanosecond of t2 - t1.
unfoldable pub time_diff : Timespec → Timespec → ℤ × ℕ
time_diff t1 t2 =
    if ltb t2.tv_nsec t1.tv_nsec
    then (minus t2.tv_sec (t1.tv_sec + 1), t2.tv_nsec + 1000000000 - t1.tv_nsec)
    else (minus t2.tv_sec t1.tv_sec, t2.tv_nsec - t1.tv_nsec)
