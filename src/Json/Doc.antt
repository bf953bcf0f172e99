-- ===== src/Json/Doc.antt =====
-- Documents as a data type: an instance of the interface for the tests. Its parser knows the
-- documents that it is given, by their texts.
use eternal_blue.Prelude.{
  Bytes, codes, ◌==◌, Bytes-tested, Bool, true, false, Option, none, some, List, [], ◌∷◌,
  if◌then◌else◌,
}
use eternal_blue.Prelude.Int.{ℤ}
use eternal_blue.Prelude.Exec.{Result, ok, err, json_error}
use eternal_blue.Json.{JsonLib}

mutual
  pub data Doc : Type 0 where
    null : Doc
    boolean : Bool → Doc
    integer : ℤ → Doc
    string : Bytes → Doc
    array : Docs → Doc
    fields : Fields → Doc

  pub data Docs : Type 0 where
    no_docs : Docs
    docs : Doc → Docs → Docs

  pub data Fields : Type 0 where
    no_fields : Fields
    field : Bytes → Doc → Fields → Fields

abbrev pub lookup : Fields → Bytes → Option Doc
lookup no_fields key = none
lookup (field name doc rest) key =
    let found = lookup rest key in if name == key then some doc else found

abbrev lookup_in : Doc → Bytes → Option Doc
lookup_in (fields list) key = lookup list key
lookup_in _ key = none

abbrev type_error : {A : Type 0} → Result A
type_error = err (json_error (codes "type must be another"))

abbrev string_of : Doc → Result Bytes
string_of (string s) = ok s
string_of _ = type_error

abbrev dumped : Doc → Bytes
dumped (string s) = s
dumped _ = codes "{}"

abbrev bool_of : Doc → Result Bool
bool_of (boolean b) = ok b
bool_of _ = type_error

abbrev integer_of : Doc → Result ℤ
integer_of (integer i) = ok i
integer_of _ = type_error

abbrev list_of : Docs → List Doc
list_of no_docs = []
list_of (docs doc rest) = doc ∷ list_of rest

abbrev items_of : Doc → List Doc
items_of (array list) = list_of list
items_of _ = []

abbrev fields_of : List (Bytes × Doc) → Fields
fields_of [] = no_fields
fields_of ((name, doc) ∷ rest) = field name doc (fields_of rest)

abbrev known : List (Bytes × Doc) → Bytes → Result Doc
known [] s = err (json_error (codes "parse error"))
known ((content, doc) ∷ rest) s = let found = known rest s in if content == s then ok doc else found

abbrev pub doc_lib : List (Bytes × Doc) → JsonLib
doc_lib texts = record {
  Json = Doc;
  parse = known texts;
  dump = λ doc. ok (dumped doc);
  contains = λ doc key. elim (lookup_in doc key) [ none ↦ false | some v ↦ true ];
  at = λ doc key. elim (lookup_in doc key) [ none ↦ type_error | some v ↦ ok v ];
  value = λ doc key default. elim (lookup_in doc key) [ none ↦ ok default | some v ↦ string_of v ];
  is_null = λ doc. elim doc [ null ↦ true | _ ↦ false ];
  get_string = string_of;
  get_bool = bool_of;
  get_int = integer_of;
  get_long = integer_of;
  items = items_of;
  text = string;
  number = integer;
  object = λ list. fields (fields_of list);
}
