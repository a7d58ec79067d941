-- ===== src/Wire/MsgRoundTrip.antt =====
-- internal/wire/op_msg.go: what MarshalBinary writes, UnmarshalBinary reads back.
use sap_hana_compatibility_l.Prelude.{
  ℕ, suc, zero, ◌+◌, ◌^◌, ◌<◌, ◌≤◌, List, [], ◌∷◌, ◌++◌, append_assoc, append-nil, ◌≡◌, refl, arith,
  ap, sym, ◌∙◌, inl, inr, true, false, Bool-cases, ltb, Bytes, length, lengths, length-bytes_append,
  ok, All, if◌then◌else◌,
}
use sap_hana_compatibility_l.GoStd.{le_bytes, read_le}
use sap_hana_compatibility_l.GoStd.Laws.{read_le-le_bytes, length-le_bytes}
use sap_hana_compatibility_l.Types.Value.{Document}
use sap_hana_compatibility_l.Wire.Header.{flag_set}
use sap_hana_compatibility_l.Wire.OpMsg.{
  OpMsg, OpMsgSection, op_msg_checksum_present, peek_bytes_of, msg_document, read_section,
  read_sections, msg_read_from, msg_unmarshal_binary, write_sections, msg_marshal_binary,
}
use sap_hana_compatibility_l.Wire.Sections.{SendableSection, section_round_trip}

-- The last round of the loop over the sections, and one before it.
read_sections_last :
    (f peek : ℕ) (bs rest : Bytes) (s : OpMsgSection)
    → read_section bs ≡ ok (s, rest)
    → length rest < peek
    → read_sections (suc f) peek bs ≡ ok (s ∷ [], rest)
unfolding read_sections
read_sections_last f peek bs rest s e lt =
    let short : ltb (length rest) peek ≡ true = ground arith in rw (e, short)

read_sections_more :
    (f peek : ℕ) (bs rest end : Bytes) (s : OpMsgSection) (ss : List OpMsgSection)
    → read_section bs ≡ ok (s, rest)
    → peek ≤ length rest
    → read_sections f peek rest ≡ ok (ss, end)
    → read_sections (suc f) peek bs ≡ ok (s ∷ ss, end)
unfolding read_sections
read_sections_more f peek bs rest end s ss e le more =
    let long : ltb (length rest) peek ≡ false = ground arith in rw (e, long, more)

-- The sections are read back in front of what is shorter than the peek of their loop.
sections_round_trip :
    (s : OpMsgSection) (ss : List OpMsgSection)
    → SendableSection s
    → All SendableSection ss
    → (b : Bytes) × (write_sections (s ∷ ss) ≡ ok b)
      × (0 < length b)
      × ((f peek : ℕ) (rest : Bytes)
          → length rest + 1 ≡ peek
          → length b < f
          → read_sections f peek (b ++ rest) ≡ ok (s ∷ ss, rest))
unfolding write_sections
sections_round_trip s [] h hs =
    let (b, written, pos, read) = section_round_trip s h in
    (b, rw (written, append-nil), pos, λ f peek rest e lt. one b read f peek rest e lt)
  where
    one :
        (b : Bytes)
        → ((rest : Bytes) → read_section (b ++ rest) ≡ ok (s, rest))
        → (f peek : ℕ) (rest : Bytes) → length rest + 1 ≡ peek
        → length b < f
        → read_sections f peek (b ++ rest) ≡ ok (s ∷ [], rest)
    one b read zero peek rest e lt = absurd (omega arith)
    one b read (suc f) peek rest e lt =
        read_sections_last f peek (b ++ rest) rest s (read rest) (omega arith)
sections_round_trip s (t ∷ ss) h (ht, hs) =
    let (b, written, pos, read) = section_round_trip s h in
    let (more, written_more, pos_more, read_more) = sections_round_trip t ss ht hs in
    (
      b ++ more,
      rw (written, written_more),
      omega (lengths, length-bytes_append b more),
      λ f peek rest e lt.
          rw append_assoc (many b more read pos pos_more read_more f peek rest e lt),
    )
  where
    many :
        (b more : Bytes)
        → ((rest : Bytes) → read_section (b ++ rest) ≡ ok (s, rest))
        → 0 < length b
        → 0 < length more
        → ((f peek : ℕ) (rest : Bytes)
            → length rest + 1 ≡ peek
            → length more < f
            → read_sections f peek (more ++ rest) ≡ ok (t ∷ ss, rest))
        → (f peek : ℕ) (rest : Bytes) → length rest + 1 ≡ peek
        → length (b ++ more) < f
        → read_sections f peek (b ++ (more ++ rest)) ≡ ok (s ∷ t ∷ ss, rest)
    many b more read pos pos_more read_more zero peek rest e lt = absurd (omega arith)
    many b more read pos pos_more read_more (suc f) peek rest e lt =
        let len = length-bytes_append b more in
        let len_rest = length-bytes_append more rest in
        read_sections_more f peek (b ++ (more ++ rest)) (more ++ rest) rest s (t ∷ ss)
          (read (more ++ rest)) (omega arith) (read_more f peek rest e (omega arith))

-- A message whose fields fit their widths, with a section at least, whose sections can be sent and
-- merge into a document; it has a checksum only if its flag says so.
pub record SendableMsg (m : OpMsg) : Type 0 where
  pub flags_fit : m.flag_bits < 2 ^ 32
  pub checksum_fits : m.checksum < 2 ^ 32
  pub no_checksum : flag_set m.flag_bits op_msg_checksum_present ≡ false → m.checksum ≡ 0
  pub first : OpMsgSection
  pub others : List OpMsgSection
  pub all_sections : m.sections ≡ first ∷ others
  pub first_fits : SendableSection first
  pub others_fit : All SendableSection others
  pub merged : Document
  pub merges : msg_document m ≡ ok merged

-- The message with the sections, and the checksum, that were read.
rebuilt :
    (m : OpMsg) (sum : ℕ) (ss : List OpMsgSection)
    → m.checksum ≡ sum
    → m.sections ≡ ss
    → record { flag_bits = m.flag_bits; checksum = sum; sections = ss } ≡ m
rebuilt m sum ss e e' =
    sym (λ i. record { flag_bits = m.flag_bits; checksum = e i; sections = e' i })

-- What `readFrom` makes of the parts.
read_from_parts :
    (m : OpMsg) (h : SendableMsg m) (flags r r1 : Bytes) (sum : ℕ)
    → flags ≡ le_bytes 4 m.flag_bits
    → read_sections (suc (length r)) (peek_bytes_of m.flag_bits) r ≡ ok (h.first ∷ h.others, r1)
    → (if flag_set m.flag_bits op_msg_checksum_present then read_le 4 r1 else ok (0, r1))
      ≡ ok (sum, [])
    → m.checksum ≡ sum
    → msg_unmarshal_binary (flags ++ r) ≡ ok m
unfolding msg_unmarshal_binary msg_read_from
read_from_parts m h flags r r1 sum e read tail same_sum =
    let same = rebuilt m sum (h.first ∷ h.others) same_sum h.all_sections in
    let merges = ap msg_document same ∙ h.merges in
    rw (e, read_le-le_bytes 4 m.flag_bits r h.flags_fit, read, tail, merges) (ap ok same)

-- A message that can be sent is marshalled, and `UnmarshalBinary` gives the same message back.
pub msg_unmarshal-marshal :
    (m : OpMsg)
    → SendableMsg m
    → (b : Bytes) × (msg_marshal_binary m ≡ ok b) × (msg_unmarshal_binary b ≡ ok m)
unfolding msg_marshal_binary
msg_unmarshal-marshal m h =
    let (b, written, pos, read) = sections_round_trip h.first h.others h.first_fits h.others_fit in
    elim (Bool-cases (flag_set m.flag_bits op_msg_checksum_present)) [
      | inl e ↦
          let sum : Bytes = le_bytes 4 m.checksum in
          let len = length-bytes_append b sum in
          let checked : read_le 4 sum ≡ ok (m.checksum, []) =
            rw append-nil at (read_le-le_bytes 4 m.checksum [] h.checksum_fits) in
          (
            le_bytes 4 m.flag_bits ++ (b ++ sum),
            rw (h.all_sections, written, e),
            read_from_parts m h (le_bytes 4 m.flag_bits) (b ++ sum) sum m.checksum refl
                (rw e (
                  read (suc (length (b ++ sum))) 5 sum (omega (arith, length-le_bytes 4 m.checksum))
                    (omega arith)))
                (rw (e, checked)) refl,
          )
      | inr e ↦
          let len = length-bytes_append b [] in
          (
            le_bytes 4 m.flag_bits ++ (b ++ []),
            rw (h.all_sections, written, e),
            read_from_parts m h (le_bytes 4 m.flag_bits) (b ++ []) [] 0 refl
                (rw e (read (suc (length (b ++ []))) 1 [] (omega arith) (omega arith))) (rw e)
                (h.no_checksum e),
          )
    ]
