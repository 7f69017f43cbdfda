-- ===== src/Lsp/Json.antt =====
-- The answers of the language server, as src/gz_lsp_client.cpp reads them. A Godot `Variant` that
-- JSON makes is one of the kinds that the code tells apart; the implicit conversions of other
-- kinds are Godot's, and parameters.
use gzscript.Base.{
  ℕ, zero, suc, ◌+◌, ◌==◌, if◌then◌else◌, Bool, not, ◌||◌, List, [], ◌∷◌, Bytes, codes, ◌===◌,
  Option, none, some, is_empty, is_none,
}

mutual
  pub data Json : Type 0 where
    null : Json
    number : ℕ → Json
    text : Bytes → Json
    array : Items → Json
    dictionary : Fields → Json
    other_kind : ℕ → Json

  pub data Items : Type 0 where
    no_items : Items
    one_item : Json → Items → Items

  pub data Fields : Type 0 where
    no_fields : Fields
    field : Bytes → Json → Fields → Fields

-- `Dictionary::get` without a default, and `has`.
unfoldable pub find_field : Bytes → Fields → Option Json
find_field key no_fields = none
find_field key (field name value rest) = if name === key then some value else find_field key rest

abbrev pub has_field : Bytes → Fields → Bool
has_field key fields = not (is_none (find_field key fields))

abbrev or_else : Json → Option Json → Json
or_else default none = default
or_else default (some value) = value

unfoldable pub get_field : Bytes → Json → Fields → Json
unfolding find_field
get_field key default fields = or_else default (find_field key fields)

-- The implicit conversions of a `Variant`.
pub record Conversions : Type 0 where
  pub as_text : Json → Bytes
  pub as_int : Json → ℕ
  pub as_fields : Json → Fields
  pub as_items : Json → Items

pub data CompletionKind : Type 0 where
  kind_function kind_member kind_variable kind_class kind_enum kind_keyword : CompletionKind
  kind_constant kind_plain_text : CompletionKind

unfoldable pub completion_kind : ℕ → CompletionKind
completion_kind kind =
    if kind == 2 || (kind == 3 || kind == 4)
    then kind_function
    else if kind == 5 || kind == 10
    then kind_member
    else if kind == 6
    then kind_variable
    else if kind == 7 || (kind == 8 || kind == 9)
    then kind_class
    else if kind == 13
    then kind_enum
    else if kind == 14
    then kind_keyword
    else if kind == 20 || kind == 21
    then kind_constant
    else kind_plain_text

-- What differs from one completion option to another.
pub record CompletionOption : Type 0 where
  pub kind : CompletionKind
  pub display : Bytes
  pub insert_text : Bytes

pub record Definition : Type 0 where
  pub script_path : Bytes
  pub location : ℕ

abbrev pub max_completion_items : ℕ
max_completion_items = 512

-- The items of an answer: an array, or what stands under "items".
unfoldable pub list_items : Json → Items
unfolding get_field
list_items (array items) = items
list_items (dictionary list) = elim (get_field (codes "items") (array no_items) list) [
  | array items ↦ items
  | _ ↦ no_items
]
list_items null = no_items
list_items (number n) = no_items
list_items (text s) = no_items
list_items (other_kind k) = no_items

module _ (to : Conversions) where
  -- The text that an item inserts.
  unfoldable pub insertion_text : Fields → Bytes
  unfolding get_field
  insertion_text item =
      let display = get_field (codes "label") (text []) item in
      let insertion =
        to.as_text (get_field (codes "insertText") (text (to.as_text display)) item) in
      elim (get_field (codes "textEdit") null item) [
        | dictionary edit ↦ to.as_text (get_field (codes "newText") (text insertion) edit)
        | _ ↦ insertion
      ]

  -- The body of the loop of `completion_options`, for an item that is a dictionary.
  unfoldable pub completion_option : Fields → Option CompletionOption
  unfolding insertion_text get_field completion_kind
  completion_option item =
      let display = to.as_text (get_field (codes "label") (text []) item) in
      let insertion = insertion_text item in
      if is_empty display
        || (is_empty insertion
            || (to.as_int (get_field (codes "insertTextFormat") (number 1) item) == 2))
      then none
      else some (record {
        kind = completion_kind (to.as_int (get_field (codes "kind") (number 1) item));
        display = display;
        insert_text = insertion;
      })

  abbrev with_option : Option CompletionOption → List CompletionOption → List CompletionOption
  with_option none options = options
  with_option (some option) options = option ∷ options

  abbrev option_of : Json → Option CompletionOption
  option_of (dictionary item) = completion_option item
  option_of _ = none

  -- The loop over at most as many items as the limit leaves.
  unfoldable pub options_of : ℕ → Items → List CompletionOption
  unfolding completion_option
  options_of zero items = []
  options_of (suc left) no_items = []
  options_of (suc left) (one_item value items) =
      with_option (option_of value) (options_of left items)

  unfoldable pub completion_options : Json → List CompletionOption
  unfolding list_items options_of
  completion_options result = options_of max_completion_items (list_items result)

  -- The location of an answer: the first of an array, or the answer itself.
  unfoldable pub first_location : Json → Option Fields
  first_location (array no_items) = none
  first_location (array (one_item (dictionary location) rest)) = some location
  first_location (array (one_item _ rest)) = none
  first_location (dictionary location) = some location
  first_location _ = none

  -- `uri_to_path` asks Godot, and is an argument.
  abbrev located : (Bytes → Bytes) → Option Fields → Option Definition
  located uri_to_path none = none
  located uri_to_path (some location) =
      let uri = to.as_text (get_field (codes "uri") (text []) location) in
      let range = to.as_fields (get_field (codes "range") (dictionary no_fields) location) in
      let start = to.as_fields (get_field (codes "start") (dictionary no_fields) range) in
      elim (find_field (codes "line") start) [
        | none ↦ none
        | some line ↦
            if is_empty uri
            then none
            else some (record { script_path = uri_to_path uri; location = to.as_int line + 1 })
      ]

  -- `none` is an empty dictionary.
  unfoldable pub definition_result : (Bytes → Bytes) → Json → Option Definition
  unfolding first_location get_field
  definition_result uri_to_path result = located uri_to_path (first_location result)
