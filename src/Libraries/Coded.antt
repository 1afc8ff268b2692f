-- ===== src/Libraries/Coded.antt =====
-- protobuf's wire format: CodedInputStream and WireFormatLite, over the bytes up to the limit.
use trezor_plugin.Prelude.{
  ℕ, ◌+◌, ◌*◌, ◌^◌, ◌≤◌, ◌<◌, ◌≡◌, ◌++◌, Bool, true, Option, some, List, [], Bytes, length,
}
use trezor_plugin.Libraries.Protobuf.{Protobuf}

-- `read_tag` is ReadTag, 0 at the end and at what is no tag; ExpectTag and ExpectAtEnd may always
-- say no. `read_string` is ReadString: whether it went well, the string as it is left, and the rest.
-- `enter` gives the bytes of a submessage and what follows them. `merge_files` is the
-- MergePartialFromCodedStream of a FileDescriptorSet, which is finished or not. What the writers
-- write of a number, a string or a submessage behind its tag are `varint` and `delimited`.
pub record Coded (pb : Protobuf) : Type 0 where
  pub read_tag : Bytes → ℕ × Bytes
  pub expect_tag : ℕ → Bytes → Option Bytes
  pub expect_at_end : Bytes → Bool
  pub read_uint32 : Bytes → Option (ℕ × Bytes)
  pub read_string : Bytes → Bool × Bytes × Bytes
  pub enter : Bytes → Option (Bytes × Bytes)
  pub skip_field : ℕ → Bytes → Option Bytes
  pub merge_files : List pb.FileDescriptor → Bytes → Bool × List pb.FileDescriptor
  pub tag_bytes : ℕ → Bytes
  pub varint : ℕ → Bytes
  pub delimited : Bytes → Bytes
  pub files_bytes : List pb.FileDescriptor → Bytes

module _ {pb : Protobuf} (coded : Coded pb) where
  open coded use {tag_bytes, varint, delimited}

  -- WriteUInt32, WriteString and WriteMessage, the last of a message's bytes: the tag has the
  -- field's number and the wire type.
  abbrev pub write_uint32 : ℕ → ℕ → Bytes
  write_uint32 number v = tag_bytes (number * 8) ++ varint v

  abbrev pub write_string : ℕ → Bytes → Bytes
  write_string number s = tag_bytes (number * 8 + 2) ++ delimited s

-- The limit of a CodedInputStream's bytes.
abbrev pub total_limit : ℕ
total_limit = 2 ^ 26

-- What protobuf documents of these, below the limit: a tag, a number below 2^32 and a string are read
-- as they were written, a set of files adds its files to those that are there, a tag that is expected is the one that is there, and nothing is there at
-- the end.
pub record Decodes {pb : Protobuf} (coded : Coded pb) : Type 0 where
  pub read_tag-tag_bytes :
      (t : ℕ) (s : Bytes) → 0 < t → t < 2 ^ 32 → coded.read_tag (coded.tag_bytes t ++ s) ≡ (t, s)
  pub read_tag_end : coded.read_tag [] ≡ (0, [])
  pub expected :
      (t : ℕ) (s s' : Bytes) → coded.expect_tag t s ≡ some s' → coded.read_tag s ≡ (t, s')
  pub at_end : (s : Bytes) → coded.expect_at_end s ≡ true → s ≡ []
  pub read_uint32-varint :
      (v : ℕ) (s : Bytes) → v < 2 ^ 32 → coded.read_uint32 (coded.varint v ++ s) ≡ some (v, s)
  pub read_string-delimited :
      (b s : Bytes)
      → length (coded.delimited b ++ s) < total_limit
      → coded.read_string (coded.delimited b ++ s) ≡ (true, b, s)
  pub enter-delimited :
      (b s : Bytes)
      → length (coded.delimited b ++ s) < total_limit
      → coded.enter (coded.delimited b ++ s) ≡ some (b, s)
  pub merge_files-files_bytes :
      (fs fs' : List pb.FileDescriptor)
      → length (coded.files_bytes fs') < total_limit
      → coded.merge_files fs (coded.files_bytes fs') ≡ (true, fs ++ fs')
  pub tag_long : (t : ℕ) → 1 ≤ length (coded.tag_bytes t)
  pub delimited_long : (b : Bytes) → length b ≤ length (coded.delimited b)

-- UInt32Size, LengthDelimitedSize, which StringSize and MessageSizeNoVirtual are of a length, and
-- the ByteSize of a FileDescriptorSet.
pub record Sizes (pb : Protobuf) : Type 0 where
  pub uint32_size : ℕ → ℕ
  pub delimited_size : ℕ → ℕ
  pub files_size : List pb.FileDescriptor → ℕ

-- What protobuf documents of these: they are the lengths of what is written, the tag of a field up
-- to 15 has one byte, and a submessage's or a string's bytes stand behind its length.
pub record Measures {pb : Protobuf} (coded : Coded pb) (sizes : Sizes pb) : Type 0 where
  pub tag_size : (t : ℕ) → t < 128 → length (coded.tag_bytes t) ≡ 1
  pub uint32_measured : (v : ℕ) → length (coded.varint v) ≡ sizes.uint32_size v
  pub delimited_longer : (b : Bytes) → length b ≤ length (coded.delimited b)
  pub delimited_measured :
      (b : Bytes) → length (coded.delimited b) ≡ sizes.delimited_size (length b)
  pub files_measured :
      (fs : List pb.FileDescriptor) → length (coded.files_bytes fs) ≡ sizes.files_size fs
