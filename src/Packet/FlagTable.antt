-- ===== src/Packet/FlagTable.antt =====
-- The flags word of `WormsPacket::getFlagsFromFields` against the fields that are present.
use worms2lobby_server_cpp.Base.{
  ℕ, ◌<◌, ltb, ltb→lt, ◌≡◌, refl, arith, Bool, true, false, not, ◌&&◌, ◌||◌, List, [], ◌∷◌, is_some,
  All,
}
use worms2lobby_server_cpp.Base.Tables.{all_bools, all_bools_sound}
use worms2lobby_server_cpp.Packet.Flags.{PacketFlags, has_flag, set_flag}
use worms2lobby_server_cpp.Packet.Fields.{PacketFields, get_flags_from_fields}

-- The word for given presences, in the order in which the code tests them.
flag_word : (v0 v1 v2 v3 v4 v10 len content err name info : Bool) → ℕ
flag_word v0 v1 v2 v3 v4 v10 len content err name info = set_flag info PacketFlags.session_info (
    set_flag name PacketFlags.name (
      set_flag err PacketFlags.error (
        set_flag content PacketFlags.content (
          set_flag len PacketFlags.data_length (
            set_flag v10 PacketFlags.value10 (
              set_flag v4 PacketFlags.value4 (
                set_flag v3 PacketFlags.value3 (
                  set_flag v2 PacketFlags.value2
                    (set_flag v1 PacketFlags.value1 (set_flag v0 PacketFlags.value0 0))))))))))

abbrev same : Bool → Bool → Bool
same true b = b
same false b = not b

all_true : List Bool → Bool
all_true [] = true
all_true (b ∷ bs) = b && all_true bs

all_true_sound : (bs : List Bool) → all_true bs ≡ true → All (λ b. b ≡ true) bs
unfolding all_true
all_true_sound [] h = tt
all_true_sound (b ∷ bs) h = (ground arith, all_true_sound bs (ground arith))

same_sound : (a b : Bool) → same a b ≡ true → b ≡ a
same_sound true b h = h
same_sound false true h = cc
same_sound false false h = refl

abbrev rows : ℕ → (v0 v1 v2 v3 v4 v10 len content err name info : Bool) → List Bool
rows word v0 v1 v2 v3 v4 v10 len content err name info =
    same v0 (has_flag word PacketFlags.value0)
    ∷ same v1 (has_flag word PacketFlags.value1)
    ∷ same v2 (has_flag word PacketFlags.value2)
    ∷ same v3 (has_flag word PacketFlags.value3)
    ∷ same v4 (has_flag word PacketFlags.value4)
    ∷ same v10 (has_flag word PacketFlags.value10)
    ∷ same len (has_flag word PacketFlags.data_length)
    ∷ same content (has_flag word PacketFlags.content)
    ∷ same err (has_flag word PacketFlags.error)
    ∷ same name (has_flag word PacketFlags.name)
    ∷ same info (has_flag word PacketFlags.session_info)
    ∷ []

table_row : List Bool → Bool
unfolding all_true flag_word
table_row (v0 ∷ v1 ∷ v2 ∷ v3 ∷ v4 ∷ v10 ∷ len ∷ content ∷ err ∷ name ∷ info ∷ []) = all_true (
    rows (flag_word v0 v1 v2 v3 v4 v10 len content err name info) v0 v1 v2 v3 v4 v10 len content err
      name info)
table_row _ = false

table : all_bools 11 table_row ≡ true
unfolding all_bools table_row has_flag
table = refl

word_rows :
    (v0 v1 v2 v3 v4 v10 len content err name info : Bool)
    → All
        (λ b. b ≡ true)
        (rows
          (flag_word v0 v1 v2 v3 v4 v10 len content err name info)
          v0
          v1
          v2
          v3
          v4
          v10
          len
          content
          err
          name
          info)
unfolding table_row
word_rows v0 v1 v2 v3 v4 v10 len content err name info =
    all_true_sound
      (rows (flag_word v0 v1 v2 v3 v4 v10 len content err name info) v0 v1 v2 v3 v4 v10 len content
        err name info)
      (all_bools_sound 11 table_row
        (v0 ∷ v1 ∷ v2 ∷ v3 ∷ v4 ∷ v10 ∷ len ∷ content ∷ err ∷ name ∷ info ∷ []) table refl)

-- What a flags word says of the fields.
pub record Describes (word : ℕ) (f : PacketFields) : Type 0 where
  pub on_value0 : has_flag word PacketFlags.value0 ≡ is_some f.value0
  pub on_value1 : has_flag word PacketFlags.value1 ≡ is_some f.value1
  pub on_value2 : has_flag word PacketFlags.value2 ≡ is_some f.value2
  pub on_value3 : has_flag word PacketFlags.value3 ≡ is_some f.value3
  pub on_value4 : has_flag word PacketFlags.value4 ≡ is_some f.value4
  pub on_value10 : has_flag word PacketFlags.value10 ≡ is_some f.value10
  pub on_data_length :
      has_flag word PacketFlags.data_length ≡ (is_some f.data_length || is_some f.content)
  pub on_content : has_flag word PacketFlags.content ≡ is_some f.content
  pub on_error : has_flag word PacketFlags.error ≡ is_some f.error
  pub on_name : has_flag word PacketFlags.name ≡ is_some f.name
  pub on_info : has_flag word PacketFlags.session_info ≡ is_some f.info

-- The flags word has a field's flag exactly when the field is present; the length's flag also
-- comes with the data.
pub get_flags_from_fields-Describes : (f : PacketFields) → Describes (get_flags_from_fields f) f
unfolding get_flags_from_fields flag_word
get_flags_from_fields-Describes f =
    let h =
      word_rows (is_some f.value0) (is_some f.value1) (is_some f.value2) (is_some f.value3)
        (is_some f.value4) (is_some f.value10) (is_some f.data_length || is_some f.content)
        (is_some f.content) (is_some f.error) (is_some f.name) (is_some f.info) in
    record {
      on_value0 = same_sound _ _ h.0;
      on_value1 = same_sound _ _ h.1.0;
      on_value2 = same_sound _ _ h.1.1.0;
      on_value3 = same_sound _ _ h.1.1.1.0;
      on_value4 = same_sound _ _ h.1.1.1.1.0;
      on_value10 = same_sound _ _ h.1.1.1.1.1.0;
      on_data_length = same_sound _ _ h.1.1.1.1.1.1.0;
      on_content = same_sound _ _ h.1.1.1.1.1.1.1.0;
      on_error = same_sound _ _ h.1.1.1.1.1.1.1.1.0;
      on_name = same_sound _ _ h.1.1.1.1.1.1.1.1.1.0;
      on_info = same_sound _ _ h.1.1.1.1.1.1.1.1.1.1.0;
    }

small_row : List Bool → Bool
unfolding flag_word
small_row (v0 ∷ v1 ∷ v2 ∷ v3 ∷ v4 ∷ v10 ∷ len ∷ content ∷ err ∷ name ∷ info ∷ []) =
    ltb (flag_word v0 v1 v2 v3 v4 v10 len content err name info) 0x800
small_row _ = false

small_table : all_bools 11 small_row ≡ true
unfolding all_bools small_row
small_table = refl

pub get_flags_from_fields-lt : (f : PacketFields) → get_flags_from_fields f < 0x800
unfolding get_flags_from_fields small_row
get_flags_from_fields-lt f = ltb→lt _ _ (
    all_bools_sound 11 small_row
      (is_some f.value0
        ∷ is_some f.value1
        ∷ is_some f.value2
        ∷ is_some f.value3
        ∷ is_some f.value4
        ∷ is_some f.value10
        ∷ (is_some f.data_length || is_some f.content)
        ∷ is_some f.content
        ∷ is_some f.error
        ∷ is_some f.name
        ∷ is_some f.info
        ∷ [])
      small_table refl)
