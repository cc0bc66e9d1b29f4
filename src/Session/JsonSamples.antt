-- ===== src/Session/JsonSamples.antt =====
-- internal/session/entry_json.go: an entry in a small format that stands for JSON.
use mixi.Session.EntryJson.{marshal_entry, marshal_header, entry_format}
use mixi.Ai.Json.Messages.{marshal_message}
use mixi.Ai.Json.{null, boolean, number, string, array, object, Json, Codec}
use mixi.Base.{
  ℕ, ◌+◌, ◌-◌, ◌≤◌, ◌≡◌, refl, ap, ◌∙◌, Bool, true, false, Option, none, some, List, [], ◌∷◌, ◌++◌,
  arith, leb, ◌==◌, if◌then◌else◌, le→leb,
}
use mixi.Base.Bytes.{Bytes, codes}
use mixi.Session.FileStore.{FileStore, joined}
use mixi.Session.FileStore.Persisted.{IsPersisted}
use mixi.Session.Tree.{new_index, add}
use mixi.Session.Loader.{LoadAnswers}
use mixi.Ai.Json.Content.{marshal_content, marshal_each, marshal_slice}
use mixi.Ai.{stop}
use mixi.Base.Lines.{newline}
use mixi.Ai.{assistant_message, text_content, tool_call}
use mixi.Ai.Json.RoundTrip.{Reads}
use mixi.Session.Entry.{Header, Entry, message}

-- an item up to its end mark, and the rest
abbrev marked : Bytes → Bytes → Bytes
marked [] rest = 0 ∷ rest
marked (b ∷ t) rest = (b + 11) ∷ marked t rest

unfoldable all_marked : List Bytes → Bytes → Bytes
all_marked [] rest = rest
all_marked (t ∷ ts) rest = marked t (all_marked ts rest)

abbrev push : ℕ → List Bytes → List Bytes
push b [] = []
push b (t ∷ ts) = (b ∷ t) ∷ ts

abbrev item : Bool → ℕ → List Bytes → List Bytes
item true b ts = push (b - 11) ts
item false b ts = [] ∷ ts

unfoldable items : Bytes → List Bytes
items [] = []
items (b ∷ s) = item (leb 11 b) b (items s)

unfoldable flat : List (Bytes × Bytes) → List Bytes
flat [] = []
flat ((k, t) ∷ ms) = k ∷ t ∷ flat ms

unfoldable paired : List Bytes → List (Bytes × Bytes)
paired [] = []
paired (k ∷ []) = []
paired (k ∷ t ∷ ts) = (k, t) ∷ paired ts

abbrev first_byte : Bytes → ℕ
first_byte [] = 0
first_byte (b ∷ s) = b

abbrev parsed : Bytes → Option Json
parsed [] = none
parsed (b ∷ s) =
    if b == 123
    then some (object (paired (items s)))
    else if b == 91
    then some (array (items s))
    else if b == 34
    then some (string s)
    else if b == 35
    then some (number (first_byte s))
    else if b == 116
    then some (boolean true)
    else if b == 102
    then some (boolean false)
    else if b == 110
    then some null
    else none

abbrev codec : Codec
codec = record {
  boolean_text = λ b. if b then 116 ∷ [] else 102 ∷ [];
  number_text = λ n. 35 ∷ n ∷ [];
  string_text = λ s. 34 ∷ s;
  null_text = 110 ∷ [];
  array_text = λ ts. some (91 ∷ all_marked ts []);
  object_text = λ ms. some (123 ∷ all_marked (flat ms) (125 ∷ []));
  parse = parsed;
}

items-marked : (t rest : Bytes) → items (marked t rest) ≡ t ∷ items rest
unfolding items
items-marked [] rest = refl
items-marked (b ∷ t) rest = simp (items-marked t rest, le→leb 11 (b + 11) (later b), minus b)
  where
    later : (b : ℕ) → 11 ≤ b + 11
    later b = omega arith

    minus : (b : ℕ) → (b + 11) - 11 ≡ b
    minus b = omega arith

items-all_marked :
    (ts : List Bytes) (rest : Bytes) → items rest ≡ [] → items (all_marked ts rest) ≡ ts
unfolding all_marked
items-all_marked [] rest h = h
items-all_marked (t ∷ ts) rest h =
    items-marked t (all_marked ts rest) ∙ ap (λ us. t ∷ us) (items-all_marked ts rest h)

paired-flat : (ms : List (Bytes × Bytes)) → paired (flat ms) ≡ ms
unfolding paired flat
paired-flat [] = refl
paired-flat ((k, t) ∷ ms) = ap (λ ns. (k, t) ∷ ns) (paired-flat ms)

ends : items [] ≡ []
unfolding items
ends = refl

brace_ends : items (125 ∷ []) ≡ []
unfolding items
brace_ends = refl

boolean_parsed : (b : Bool) → parsed (if b then 116 ∷ [] else 102 ∷ []) ≡ some (boolean b)
boolean_parsed true = refl
boolean_parsed false = refl

codec-Reads : Reads codec
codec-Reads = record {
  IsCompact = λ t. Unit;
  null_back = (tt, refl);
  boolean_back = λ b. (tt, boolean_parsed b);
  number_back = λ n. (tt, refl);
  string_back = λ s. (tt, refl);
  array_back = λ ts h.
      (91 ∷ all_marked ts [], refl, tt, ap (λ us. some (array us)) (items-all_marked ts [] ends));
  object_back = λ ms h. (
    123 ∷ all_marked (flat ms) (125 ∷ []),
    refl,
    tt,
    ap (λ ns. some (object ns))
        (ap paired (items-all_marked (flat ms) (125 ∷ []) brace_ends) ∙ paired-flat ms),
  );
}

abbrev call : Entry
call = record {
  id = codes "00000001";
  parent = [];
  timestamp = codes "noon";
  body =
      message
        (assistant_message (record {
          content =
              text_content (codes "hi") []
              ∷ tool_call (codes "1") (codes "ls") (codes "{}") []
              ∷ [];
          api = codes "a";
          provider = codes "p";
          model = codes "m";
          response_model = [];
          response_id = codes "r";
          usage = record { input = 1; output = 2; cache_read = 0; cache_write = 0; total = 3 };
          stop_reason = stop;
          error_message = [];
          timestamp = 7;
        }))
        true;
}

abbrev text : Option Bytes → Bytes
text none = []
text (some t) = t

abbrev header : Header
header = record { version = 1; id = []; timestamp = []; cwd = codes "/"; parent_session = [] }

abbrev head_text : Bytes
head_text = text (marshal_header codec header)

abbrev call_text : Bytes
call_text = text (marshal_entry codec call)

abbrev stored_file : Bytes
stored_file = (head_text ++ newline ∷ []) ++ joined (call_text ∷ [])

abbrev stored : FileStore
stored = record {
  header = header;
  index = add call new_index;
  options = record { read_only = false; fsync = true };
  disk = some stored_file;
  opened = true;
  pending = [];
  closed = false;
}

stored-IsPersisted : IsPersisted (entry_format codec) (call ∷ []) (call_text ∷ []) stored
unfolding marshal_header marshal_entry marshal_message marshal_slice marshal_each marshal_content
stored-IsPersisted = record {
  head = head_text;
  header_line = refl;
  replays = refl;
  lines = (refl, tt);
  holds = refl;
}

abbrev calm : LoadAnswers
calm = record { read_ok = λ n. true; truncate_ok = true; repair_ok = true }
