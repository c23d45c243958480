-- ===== src/Json/Sample.antt =====
-- A concrete cJSON for runs: its values are a data type, and its parser knows one text.
use linyaps_store.Base.{
  ℕ, Option, none, some, List, [], ◌∷◌, Bool, true, false, Str, same, ℤ, pos, if◌then◌else◌,
}
use linyaps_store.Json.{Json}

-- JSON values.
mutual
  pub data Node : Type 0 where
    text : Str → Node
    num : ℕ → Node
    object : Fields → Node
    items : Nodes → Node

  pub data Fields : Type 0 where
    end : Fields
    field : Str → Node → Fields → Fields

  pub data Nodes : Type 0 where
    nil : Nodes
    cons : Node → Nodes → Nodes

unfoldable pub find : Str → Fields → Option Node
find name end = none
find name (field n v fs) = let rest = find name fs in if same n name then some v else rest

unfoldable pub item : Node → Str → Option Node
unfolding find same
item (object fs) name = find name fs
item v name = none

unfoldable pub string : Node → Option Str
string (text s) = some s
string v = none

unfoldable pub to_list : Nodes → List Node
to_list nil = []
to_list (cons v vs) = v ∷ to_list vs

unfoldable pub array : Node → Option (List Node)
unfolding to_list
array (items vs) = some (to_list vs)
array v = none

unfoldable pub head : Nodes → Option Node
head nil = none
head (cons v vs) = some v

unfoldable pub first : Node → Option Node
unfolding head
first (items vs) = head vs
first v = none

unfoldable pub is_object : Node → Bool
is_object (object fs) = true
is_object v = false

unfoldable pub number : Node → Option ℤ
number (num n) = some (pos n)
number v = none

-- A cJSON for which every text is the value `root`.
abbrev pub json_of : Node → Json
json_of root = record {
  Value = Node;
  item = item;
  string = string;
  number = number;
  array = array;
  first = first;
  is_object = is_object;
  parse = λ s. some root;
  atoll = λ s. pos 0;
}
