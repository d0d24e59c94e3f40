-- ===== src/Fs/FileId.antt =====
-- src/shk/src/fs/file_id.h: the inode and device numbers that name a file.
use shuriken.Prelude.{ℕ, ◌≡◌, ◌↔◌, Bool, ◌&&◌, arith, nat_beq, Eq, true}

pub record FileId : Type 0 where
  pub ino : ℕ
  pub dev : ℕ

abbrev pub no_file : FileId
no_file = record { ino = 0; dev = 0 }

abbrev pub missing : FileId → Bool
missing f = nat_beq f.ino 0 && nat_beq f.dev 0

abbrev pub file_id_beq : FileId → FileId → Bool
file_id_beq a b = nat_beq a.ino b.ino && nat_beq a.dev b.dev

pub file_id_beq_iff : (a b : FileId) → (file_id_beq a b ≡ true) ↔ (a ≡ b)
file_id_beq_iff a b = ground arith

instance abbrev pub file_id_eq : Eq FileId
file_id_eq = record { same = file_id_beq; same_iff = file_id_beq_iff }
