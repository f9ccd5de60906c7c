-- ===== src/Bytes.antt =====
-- The buffers of the `bytes` crate, which the codec writes to and reads from. The crate is not in
-- the repository: its calls are the fields of `BytesMut`, and `IsBigEndian` says what its
-- documentation promises of them. A buffer is the list of its readable bytes.
pub mod Words
use rust_pinecone.Prelude.{ℕ, ◌≡◌, ◌++◌, List, Reply, M, refl}
use Words.{be, read}

pub record BytesMut : Type 0 where
  pub put_u8 : ℕ → List ℕ → List ℕ
  pub put_u16 : ℕ → List ℕ → List ℕ
  pub put_u64 : ℕ → List ℕ → List ℕ
  pub put_slice : List ℕ → List ℕ → List ℕ
  pub get_u8 : M (List ℕ) ℕ
  pub get_u16 : M (List ℕ) ℕ
  pub get_u32 : M (List ℕ) ℕ
  pub get_u64 : M (List ℕ) ℕ

-- Writes append, numbers in big-endian order; reads take from the front, and panic where too few
-- bytes are left.
pub record IsBigEndian (b : BytesMut) : Type 0 where
  pub put_u8_lem : (n : ℕ) (dst : List ℕ) → b.put_u8 n dst ≡ dst ++ be 1 n
  pub put_u16_lem : (n : ℕ) (dst : List ℕ) → b.put_u16 n dst ≡ dst ++ be 2 n
  pub put_u64_lem : (n : ℕ) (dst : List ℕ) → b.put_u64 n dst ≡ dst ++ be 8 n
  pub put_slice_lem : (xs dst : List ℕ) → b.put_slice xs dst ≡ dst ++ xs
  pub get_u8_lem : (src : List ℕ) → b.get_u8 src ≡ read 1 src
  pub get_u16_lem : (src : List ℕ) → b.get_u16 src ≡ read 2 src
  pub get_u32_lem : (src : List ℕ) → b.get_u32 src ≡ read 4 src
  pub get_u64_lem : (src : List ℕ) → b.get_u64 src ≡ read 8 src

-- A buffer that behaves so.
abbrev pub big_endian : BytesMut
big_endian = record {
  put_u8 = λ n dst. dst ++ be 1 n;
  put_u16 = λ n dst. dst ++ be 2 n;
  put_u64 = λ n dst. dst ++ be 8 n;
  put_slice = λ xs dst. dst ++ xs;
  get_u8 = read 1;
  get_u16 = read 2;
  get_u32 = read 4;
  get_u64 = read 8;
}

pub big_endian-IsBigEndian : IsBigEndian big_endian
big_endian-IsBigEndian = record {
  put_u8_lem = λ n dst. refl;
  put_u16_lem = λ n dst. refl;
  put_u64_lem = λ n dst. refl;
  put_slice_lem = λ xs dst. refl;
  get_u8_lem = λ src. refl;
  get_u16_lem = λ src. refl;
  get_u32_lem = λ src. refl;
  get_u64_lem = λ src. refl;
}
