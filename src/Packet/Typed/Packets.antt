-- ===== src/Packet/Typed/Packets.antt =====
-- `WormsPacket::readFrom` of src/worms_packet.cpp on any bytes: what a packet that was read is.
use worms2lobby_server_cpp.Base.{
  ℕ, ◌+◌, ◌*◌, ◌≤◌, ◌<◌, ◌≡◌, refl, sym, subst, arith, Bool, true, Option, none, some, List, [],
  ◌∷◌, ◌∙◌, ap, length, drop, length-drop, leb, leb→le, Bool-cases, inl, inr,
}
use worms2lobby_server_cpp.Packet.Io.{
  PacketIo, ParseResult, complete, partial, error, fault, unknown_packet_code, pure, check, get_u32,
}
use worms2lobby_server_cpp.Packet.Rules.{need_enough, need_few}
use worms2lobby_server_cpp.Packet.Code.{PacketCode, code_value, packet_code_exists, code_of_value}
use worms2lobby_server_cpp.Packet.Flags.{PacketFlags, has_flag}
use worms2lobby_server_cpp.Packet.Fields.{
  WormsPacket, PacketFields, no_fields, Settings, new_packet, set_data_length, data_length,
}
use worms2lobby_server_cpp.Packet.Read.{
  read_value, read_data_length, read_data, read_name, read_info, read_fields, read_from,
}
use worms2lobby_server_cpp.Packet.Typed.{
  AreBytes, Follows, absent, present, Given, Gives, Gives-bind, flag-Gives,
}
use worms2lobby_server_cpp.Packet.Typed.Reads.{
  AreBytes-drop, IsWord, IsAtMost, IsGenuine, value_body-Gives, length_body-Gives, data_body-Gives,
  name_body-Gives, info_body-Gives,
}

-- The packet of a code and of flags: each field is there exactly when its flag is set, and has a
-- value that it may have.
pub record IsTyped (settings : Settings) (code : PacketCode) (flags : ℕ) (p : WormsPacket)
    : Type 0 where
  pub same_code : p.code ≡ code
  pub value0 : Follows IsWord (has_flag flags PacketFlags.value0) p.fields.value0
  pub value1 : Follows IsWord (has_flag flags PacketFlags.value1) p.fields.value1
  pub value2 : Follows IsWord (has_flag flags PacketFlags.value2) p.fields.value2
  pub value3 : Follows IsWord (has_flag flags PacketFlags.value3) p.fields.value3
  pub value4 : Follows IsWord (has_flag flags PacketFlags.value4) p.fields.value4
  pub value10 : Follows IsWord (has_flag flags PacketFlags.value10) p.fields.value10
  pub length_of_data :
      Follows (λ n. n ≤ 0x200) (has_flag flags PacketFlags.data_length) p.fields.data_length
  pub content : Follows (IsAtMost 0x200) (has_flag flags PacketFlags.content) p.fields.content
  pub error : Follows IsWord (has_flag flags PacketFlags.error) p.fields.error
  pub name : Follows (IsAtMost 20) (has_flag flags PacketFlags.name) p.fields.name
  pub info : Follows (IsGenuine settings) (has_flag flags PacketFlags.session_info) p.fields.info

-- The code and the flags at the head of the bytes.
abbrev pub word_at_head : List ℕ → ℕ
word_at_head (a ∷ b ∷ c ∷ d ∷ s) = a + b * 256 + c * 65536 + d * 16777216
word_at_head _ = 0

module _ (io : PacketIo) (settings : Settings) (code : PacketCode) (flags : ℕ) where
  value-Gives :
      (flag : PacketFlags) → Gives (Follows IsWord (has_flag flags flag)) (read_value io flags flag)
  unfolding read_value
  value-Gives flag = flag-Gives IsWord (has_flag flags flag) _ (value_body-Gives io)

  -- The packet after its length is read, where the fields before are `f`.
  record Begun (f : PacketFields) (p : WormsPacket) : Type 0 where
    len : Option ℕ
    follows : Follows (λ n. n ≤ 0x200) (has_flag flags PacketFlags.data_length) len
    same_code : p.code ≡ code
    same : p.fields ≡ record f { data_length = len }

  length-Gives :
      (f : PacketFields)
      → f.data_length ≡ none
      → Gives (Begun f) (read_data_length io flags (new_packet code f))
  unfolding read_data_length new_packet set_data_length
  length-Gives f e s b = elim (Bool-cases (has_flag flags PacketFlags.data_length)) [
    | inl t ↦ rw t (
        Gives-bind (λ len. len ≤ 0x200) (Begun f) _ _ (length_body-Gives io)
          (λ len h u c. (
            record {
              len = some len;
              follows = rw t (present len h);
              same_code = refl;
              same = ground arith;
            },
            c,
          ))
          s b)
    | inr t ↦ rw t (
      record { len = none; follows = rw t absent; same_code = refl; same = ground (arith, e) },
      b,
    )
  ]

  -- A field of the packet that was begun, from that of the fields before.
  begun :
      {A : Type 0} {P : A → Type 0} {b : Bool} (field : PacketFields → Option A) (f : PacketFields)
      (p : WormsPacket) (h : Begun f p)
      → Follows P b (field (record f { data_length = h.len }))
      → Follows P b (field p.fields)
  begun {A} {P} {b} field f p h v = subst (λ g. Follows P b (field g)) (sym h.same) v

  content-Gives :
      (p : WormsPacket)
      → Gives
          (Follows (IsAtMost 0x200) (has_flag flags PacketFlags.content))
          (read_data io settings flags p)
  unfolding read_data
  content-Gives p =
      flag-Gives (IsAtMost 0x200) (has_flag flags PacketFlags.content) _
        (data_body-Gives io settings (data_length p))

  name-Gives :
      Gives (Follows (IsAtMost 20) (has_flag flags PacketFlags.name)) (read_name io settings flags)
  unfolding read_name
  name-Gives =
      flag-Gives (IsAtMost 20) (has_flag flags PacketFlags.name) _ (name_body-Gives io settings)

  info-Gives :
      Gives
        (Follows (IsGenuine settings) (has_flag flags PacketFlags.session_info))
        (read_info io settings flags)
  unfolding read_info
  info-Gives =
      flag-Gives (IsGenuine settings) (has_flag flags PacketFlags.session_info) _
        (info_body-Gives io settings)

  read_fields-Gives : Gives (IsTyped settings code flags) (read_fields io settings code flags)
  unfolding read_fields
  read_fields-Gives = Gives-bind _ T _ _ (value-Gives PacketFlags.value0) λ v0 h0.
      Gives-bind _ T _ _ (value-Gives PacketFlags.value1) λ v1 h1.
        Gives-bind _ T _ _ (value-Gives PacketFlags.value2) λ v2 h2.
          Gives-bind _ T _ _ (value-Gives PacketFlags.value3) λ v3 h3.
            Gives-bind _ T _ _ (value-Gives PacketFlags.value4) λ v4 h4.
              Gives-bind _ T _ _ (value-Gives PacketFlags.value10) λ v10 h10.
                Gives-bind (Begun (fields v0 v1 v2 v3 v4 v10)) T _ _ (length-Gives _ refl) λ p hp.
                  Gives-bind _ T _ _ (content-Gives p) λ content hc.
                    Gives-bind _ T _ _ (value-Gives PacketFlags.error) λ err he.
                      Gives-bind _ T _ _ name-Gives λ name hn.
                        Gives-bind _ T _
                          (λ info. pure (record p {
                            fields = record p.fields {
                              content = content;
                              error = err;
                              name = name;
                              info = info;
                            };
                          }))
                          info-Gives
                          λ info hi s b. (
                            record {
                              same_code = hp.same_code;
                              value0 = begun (λ g. g.value0) _ p hp h0;
                              value1 = begun (λ g. g.value1) _ p hp h1;
                              value2 = begun (λ g. g.value2) _ p hp h2;
                              value3 = begun (λ g. g.value3) _ p hp h3;
                              value4 = begun (λ g. g.value4) _ p hp h4;
                              value10 = begun (λ g. g.value10) _ p hp h10;
                              length_of_data = begun (λ g. g.data_length) _ p hp hp.follows;
                              content = hc;
                              error = he;
                              name = hn;
                              info = hi;
                            },
                            b,
                          )
    where
      T : WormsPacket → Type 0
      T = IsTyped settings code flags

      fields : Option ℕ → Option ℕ → Option ℕ → Option ℕ → Option ℕ → Option ℕ → PacketFields
      fields v0 v1 v2 v3 v4 v10 = record no_fields {
        value0 = v0;
        value1 = v1;
        value2 = v2;
        value3 = v3;
        value4 = v4;
        value10 = v10;
      }

code_of_value-found : (v : ℕ) → packet_code_exists v ≡ true → code_value (code_of_value v) ≡ v
unfolding packet_code_exists code_of_value
code_of_value-found v h = ground arith

-- A packet that was read from bytes: its code is the first number and one that a client may send,
-- and the second number says which fields it has.
pub record IsReadFrom (settings : Settings) (s : List ℕ) (p : WormsPacket) : Type 0 where
  pub known : packet_code_exists (word_at_head s) ≡ true
  pub code : code_value p.code ≡ word_at_head s
  pub typed : IsTyped settings (code_of_value (word_at_head s)) (word_at_head (drop 4 s)) p

module _ (io : PacketIo) where
  get_u32-head : (s : List ℕ) → 4 ≤ length s → get_u32 io s ≡ complete (word_at_head s) (drop 4 s)
  unfolding get_u32
  get_u32-head [] l = absurd (omega arith)
  get_u32-head (x ∷ []) l = absurd (omega arith)
  get_u32-head (x ∷ y ∷ []) l = absurd (omega arith)
  get_u32-head (x ∷ y ∷ z ∷ []) l = absurd (omega arith)
  get_u32-head (x ∷ y ∷ z ∷ w ∷ s) l = rw (io.read_u32_lem x y z w s) refl

  IsReadFrom-of_Given :
      (settings : Settings) (s rest : List ℕ) (p : WormsPacket) (r : ParseResult WormsPacket)
      → packet_code_exists (word_at_head s) ≡ true
      → Given (IsTyped settings (code_of_value (word_at_head s)) (word_at_head (drop 4 s))) r
      → r ≡ complete p rest
      → IsReadFrom settings s p
  IsReadFrom-of_Given settings s rest p (complete q t) k (h, b) e =
      let same : q ≡ p = cc in
      subst (IsReadFrom settings s) same (record {
        known = k;
        code = ap code_value h.same_code ∙ code_of_value-found (word_at_head s) k;
        typed = h;
      })
  IsReadFrom-of_Given settings s rest p partial k h e = absurd (cc)
  IsReadFrom-of_Given settings s rest p (error x) k h e = absurd (cc)
  IsReadFrom-of_Given settings s rest p fault k h e = absurd (cc)

  -- A packet that is read from bytes is of the type of its head: its code is the first number and
  -- one that a client may send, each field is there exactly when its flag in the second number is
  -- set, numbers have 32 bits, the length and the data are 512 at most, the name has 20 bytes at
  -- most, and a session info has the marks of the protocol, 35 zeros of padding and release 49.
  pub read_from-IsReadFrom :
      (settings : Settings) (s rest : List ℕ) (p : WormsPacket)
      → AreBytes s
      → read_from io settings s ≡ complete p rest
      → IsReadFrom settings s p
  unfolding read_from check
  read_from-IsReadFrom settings s rest p b e = elim (Bool-cases (leb 8 (length s))) [
    | inr f ↦
        let l : length s < 8 = ground arith in
        let q : partial ≡ complete p rest = rw (need_few io 8 s l) at e in absurd (cc)
    | inl f ↦
        let l : 8 ≤ length s = leb→le _ _ f in
        let l' : 4 ≤ length (drop 4 s) = omega (arith, length-drop 4 s) in
        elim (Bool-cases (packet_code_exists (word_at_head s))) [
          | inr k ↦
              let q : error (unknown_packet_code (word_at_head s)) ≡ complete p rest =
                rw (need_enough io 8 s l, get_u32-head s (omega arith), k) at e in
              absurd (cc)
          | inl k ↦
              IsReadFrom-of_Given settings s rest p _ k
                (read_fields-Gives io settings (code_of_value (word_at_head s))
                  (word_at_head (drop 4 s)) (drop 4 (drop 4 s))
                  (AreBytes-drop 4 _ (AreBytes-drop 4 s b)))
                (rw
                  (
                    need_enough io 8 s l,
                    get_u32-head s (omega arith),
                    k,
                    get_u32-head (drop 4 s) l',
                  )
                  at e)
        ]
  ]
