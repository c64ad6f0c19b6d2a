-- ===== src/Finder/Parse/Dispatch.antt =====
-- From the bytes that vim9-fuzzy.c reads over the parsing of json_msg_handler.c to its dispatch.
use magit.Base.{Option, List, Bytes, ℤ, pos, ◌>>=◌}
use magit.Finder.Jobs.{Message, Answer, State}
use magit.Finder.Parse.{Token, Key, handle_json_str}
use magit.Finder.Parse.Members.{Part, element_of, number_of}

-- The message that some parts spell.
abbrev pub spelt_message : List Part → Message
spelt_message ps = record {
  cmd = element_of Key.cmd ps;
  value = element_of Key.value ps;
  mru_path = element_of Key.mru_path ps;
  yank_path = element_of Key.yank_path ps;
  list_cmd = element_of Key.list_cmd ps;
  seq = number_of (pos 0) ps;
}

module _ (jsmn_parse : Bytes → ℤ × List Token) (a : Answer) where
  -- handle_json_msg on a state, or after a fault.
  abbrev pub receive : Option State → Bytes → Option State
  receive st json = st >>= handle_json_str jsmn_parse a json
