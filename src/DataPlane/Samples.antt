-- ===== src/DataPlane/Samples.antt =====
-- Sample states of the data plane, over numbers in tenths.
use atlas_client.Prelude.{
  true, some, List, [], ◌∷◌, ℕ, ◌+◌, ◌-◌, ◌*◌, ℤ, pos, negsuc, codes, length, ltb,
}
use atlas_client.Library.{Kernel, Library}
use atlas_client.DataPlane.{Doubles, Timespec, Publisher, RepInfo, Plane}

-- The number of a digit.
abbrev digit : List ℕ → ℕ
digit [] = 0
digit (c ∷ cs) = c - 48

abbrev natural : ℤ → ℕ
natural (pos n) = n
natural (negsuc n) = 0

abbrev pub tenths : Doubles ℕ
tenths = record {
  less = ltb;
  plus = λ a b. a + b;
  minus = λ a b. a - b;
  times = λ a b. a * b;
  divided = λ a b. a;
  tenths = λ n. n;
  of_int = λ i. natural i * 10;
  to_u16 = λ a. a;
  to_long = λ a. a;
  to_float = λ a. a;
  atof = λ text. digit text * 10;
  print = λ a. (48 + a) ∷ [];
}

abbrev pub number : List ℕ → ℤ
number text = pos (digit text)

-- The client takes every message and sends nothing.
abbrev pub silent_client : Kernel
silent_client = record {
  socket = λ h. pos 4;
  connect = λ h. pos 0;
  write = λ h buf. pos (length buf);
  read = λ h. [];
}

abbrev pub no_statistics : Library
no_statistics = record {
  calls = [];
  fd = pos 4;
  payload_samples = 0;
  payload_total = 0;
  payload_avg = 0;
  qos = 1;
  packets_per_min = 60;
  packets_maxlen = 256;
}

abbrev pub noon : Timespec
noon = record { tv_sec = 100; tv_nsec = 5 }

abbrev pub temperatures : RepInfo ℕ
temperatures = record {
  feature = codes "temp";
  query_rate = pos 9;
  target_value = pos 2;
  window_size = pos 3;
  feedback_active = true;
  samples = [];
  window_start = noon;
}

abbrev pub thermometer : Publisher ℕ
thermometer = record {
  feature = codes "temp";
  publish_rate = pos 5;
  base_value = 2;
  deviation = 1;
  qos = pos 1;
  packet_length = pos 0;
  buffer = 257;
}

abbrev pub consumer : Plane ℕ
consumer = record {
  publish_str = [];
  rep_info = temperatures;
  identity = some (codes "me");
  published = [];
  subscribed = [];
  library = no_statistics;
}

abbrev pub producer : Plane ℕ
producer = record consumer { publish_str = thermometer ∷ []; identity = some (codes "it") }
