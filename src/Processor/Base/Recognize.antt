-- ===== src/Processor/Base/Recognize.antt =====
-- A text is the name of one of the commands, or of none.
use rzgate.Prelude.{
  ◌≡◌, ◌≢◌, ap, ◌⊎◌, inl, inr, false, Bool-cases, List, [], ◌∷◌, All, equal, equal_sound,
  equal_refl,
}
use rzgate.Bytes.{Bytes}
use rzgate.Processor.Base.Table.{
  Command, name_of, set_prop, prop_exist, search_prop, set_room_pkg, set_room_avl, inc_room_avl,
  dec_room_avl, del_room_day, prop_room_exist, get_prop_room_day, prop_room_date_list,
  del_prop_room, search_avail, prop_room_list, del_prop, del_segment, del_prop_day, get_segments,
}
use rzgate.Processor.Base.Commands.{IsUnknown}

abbrev all_commands : List Command
all_commands =
    set_prop ∷ prop_exist ∷ search_prop ∷ set_room_pkg ∷ set_room_avl ∷ inc_room_avl ∷ dec_room_avl
    ∷ del_room_day ∷ prop_room_exist ∷ get_prop_room_day ∷ prop_room_date_list ∷ del_prop_room
    ∷ search_avail ∷ prop_room_list ∷ del_prop ∷ del_segment ∷ del_prop_day ∷ get_segments ∷ []

different : {x y : Bytes} → equal x y ≡ false → x ≢ y
different {x} e same = let t = equal_refl x in cc (ap (equal x) same)

among :
    (name : Bytes) (cs : List Command)
    → ((c : Command) × (name ≡ name_of c)) ⊎ All (λ c. name ≢ name_of c) cs
among name [] = inr tt
among name (c ∷ cs) = elim (Bool-cases (equal name (name_of c))) [
  | inl e ↦ inl (c, equal_sound name (name_of c) e)
  | inr e ↦ elim (among name cs) [ inl found ↦ inl found | inr others ↦ inr (different e, others) ]
]

-- A name is that of a command, or of none.
pub recognize : (name : Bytes) → ((c : Command) × (name ≡ name_of c)) ⊎ IsUnknown name
recognize name = elim (among name all_commands) [
  | inl found ↦ inl found
  | inr others ↦ inr (none_of others)
]
  where
    none_of : All (λ c. name ≢ name_of c) all_commands → IsUnknown name
    none_of h set_prop = h.0
    none_of h prop_exist = h.1.0
    none_of h search_prop = h.1.1.0
    none_of h set_room_pkg = h.1.1.1.0
    none_of h set_room_avl = h.1.1.1.1.0
    none_of h inc_room_avl = h.1.1.1.1.1.0
    none_of h dec_room_avl = h.1.1.1.1.1.1.0
    none_of h del_room_day = h.1.1.1.1.1.1.1.0
    none_of h prop_room_exist = h.1.1.1.1.1.1.1.1.0
    none_of h get_prop_room_day = h.1.1.1.1.1.1.1.1.1.0
    none_of h prop_room_date_list = h.1.1.1.1.1.1.1.1.1.1.0
    none_of h del_prop_room = h.1.1.1.1.1.1.1.1.1.1.1.0
    none_of h search_avail = h.1.1.1.1.1.1.1.1.1.1.1.1.0
    none_of h prop_room_list = h.1.1.1.1.1.1.1.1.1.1.1.1.1.0
    none_of h del_prop = h.1.1.1.1.1.1.1.1.1.1.1.1.1.1.0
    none_of h del_segment = h.1.1.1.1.1.1.1.1.1.1.1.1.1.1.1.0
    none_of h del_prop_day = h.1.1.1.1.1.1.1.1.1.1.1.1.1.1.1.1.0
    none_of h get_segments = h.1.1.1.1.1.1.1.1.1.1.1.1.1.1.1.1.1.0
