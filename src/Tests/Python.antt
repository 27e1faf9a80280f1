-- ===== src/Tests/Python.antt =====
-- Values for the parameters, as Python's functions have them on the inputs of these tests.
use swarm_kill_chain_medium.Prelude.{String, Option, none, some}
use swarm_kill_chain_medium.Prelude.Text.{Bytes}
use swarm_kill_chain_medium.Json.{Json, str, Python}

abbrev text_of : Json → String
text_of (str s) = s
text_of _ = "None"

abbrev pub python : Python
python = record {
  str_of = text_of;
  lower = λ s. s;
  float_of_text = λ s. none;
  int_of_text = λ s. none;
  str_of_int = λ n. "0";
  str_of_float = λ x. "0.0";
  strip = λ s. s;
  sorted = some;
  distinct = some;
}

abbrev pub sha256_text : String → String
sha256_text s = s

abbrev pub sha256 : Bytes → String
sha256 line = "5f70bf18"

abbrev pub no_json : Bytes → Option Json
no_json line = none
