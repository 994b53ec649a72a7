-- ===== src/Lib.antt =====
-- OProW (oprow/): locators in a watermark, manifests behind locators, and the verifier that decides what
-- a locator is worth.
--
-- The program. A payload (oprow/watermark/payload.py) holds a version, an algorithm, flags and a pointer to a
-- manifest; it is written as bits with a CRC-16 (crc.py), framed by a preamble and a length, and repeated for
-- majority decoding (ecc.py), all on bit lists (bits.py). The pointer is a hash of the manifest, full or
-- truncated (oprow/core/hashes.py, identifiers.py, models.py). Resolvers (oprow/resolution) return
-- candidate manifests for a locator. The verifier (oprow/verification/orchestrator.py) checks each
-- candidate against the locator, its signatures (oprow/manifest), the hash of the artifact and
-- a local policy (trust.py), and classifies the reports into one answer. A sparse Merkle map
-- (oprow/authmap/sparse_merkle.py) commits to an index and proves what it holds. Canonical CBOR
-- (oprow/core/canonical.py) gives one encoding to each value that is hashed or signed. A rateless watermark
-- (oprow/rateless) spreads a manifest key over the tiles of an image: a tile record (records.py) carries
-- one linear equation of the key over GF(2), and enough equations (equations.py) are solved by elimination
-- (gf2.py) for the whole key.
--
-- The files. Watermark/Bits, Ecc, Crc model the files of these names; Watermark/Payload and Frame model
-- payload.py (`WatermarkPayload` and `WatermarkFrameCodec`). Core/Hashes, Identifiers and Manifest model
-- oprow/core. Resolution and Resolution/Composite model oprow/resolution/base.py and
-- composite.py, Resolution/Cas the stores and the resolver of cas.py, Short64 the index of oprow/short64.
-- Verification/Signatures models oprow/manifest/keys.py, signatures.py and verification.py;
-- Verification/Results, Trust, Orchestrator and Classify model oprow/verification. Authmap/SparseMerkle
-- models the map, and Authmap/SparseMerkle/Hashing its hashes. Core/Canonical models
-- oprow/core/canonical.py, and Rateless/Gf2, Equations and Records the files of these names of
-- oprow/rateless. Definitions keep the names of the functions; a record literal passed through
-- a checking function (`watermark_payload`,
-- `manifest_locator`, `sparse_merkle_proof`) is a constructor with its `__post_init__`. Common holds the
-- shared types and lemmas; Examples applies the theorems to concrete inputs.
--
-- The conventions. Bytes and bits are natural numbers in lists; a function that raises returns `Result`, with
-- the class of the exception and the fixed part of its message. Loops are structural recursion: over
-- the list, over the number of groups (`decode_groups`, `pack_groups`), over the offsets that are left to
-- try (`find_preamble`, one more than the last offset), over the height of the tree, over the copies and
-- the positions of a tile record. The counts of binary digits in Rateless/Gf2 recur on the number itself,
-- which is at least the number of its digits. The decoder and the encoder of canonical CBOR recur on the
-- number of their nested calls that the interpreter's stack has room for, two arguments of the caller; its
-- end is the error of class `recursion_error`. How much of the stack a call takes is the interpreter's
-- matter. The loop over the hash blocks of a mask has no end of its own but the overflow of the counter at
-- 2^32; the model stops after a number of blocks that the caller gives, with `none`, and Equations/Enough
-- says which number is enough.
--
-- The parameters: SHA-256, with its 32-byte digest; the cryptography package and the canonical header
-- bytes; the resolvers; the key resolver; the essence registry; the decoder of manifest documents; what
-- these raise is a value, and is caught where the code catches it. Further the test of UTF-8, with which
-- the CBOR decoder reads a text, and the confidences of equations with their comparison.
--
-- Not modelled: the conversion of objects to primitives and the debug JSON (the canonical bytes of a core
-- and of a manifest are fields, so that a manifest whose canonicalization raises is no value here; what
-- stores a manifest takes the exception as an argument), textual forms of identifiers, diagnostics and metadata dicts, images and
-- files, the confidence of a decoded tile, the HDC and authenticated indexes, the image carriers of the
-- rateless code, trust backends, C2PA and chain adapters, the demo application.
pub mod Common
pub mod Watermark
pub mod Core
pub mod Resolution
pub mod Verification
pub mod Authmap
pub mod Examples
pub mod Short64
pub mod Rateless
