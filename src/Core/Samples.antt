-- ===== src/Core/Samples.antt =====
-- A digest for the tests.
use gitdb.Base.{
  ℕ, arith, [], ◌++◌, append_assoc, append-nil, take, replicate, length-take, length-append,
  length-replicate,
}
use gitdb.Base.Bytes.{Bytes}
use gitdb.Core.Hashing.{Digest}

-- A digest of `n` bytes: the first ones of the input, padded with zeros
abbrev pub first_bytes : ℕ → Digest
first_bytes n = record {
  State = Bytes;
  init = [];
  update = λ s bytes. s ++ bytes;
  finalize = λ s. take n (s ++ replicate n 0);
  output_len = n;
  update_append = λ s xs ys. append_assoc s xs ys;
  update_nil = λ s. append-nil s;
  finalize_len = λ s. omega (
    arith,
    length-take n (s ++ replicate n 0),
    length-append s (replicate n 0),
    length-replicate {A = ℕ} n 0,
  );
}
