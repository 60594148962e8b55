-- ===== src/AuthFs/Laws.antt =====
-- What the file system and jsoncpp promise, as far as the theorems rely on it.
use cx_framework.Base.{Bool, true, false, ◌≡◌, ◌≢◌, Bytes}
use cx_framework.AuthFs.{FileSystem, Json}

-- A file that was written has its bytes and can be read; a file that was removed cannot. Other files
-- keep their bytes, other paths can be written as before, and no other file comes or goes.
pub record IsFileSystem (fs : FileSystem) : Type 0 where
  pub read-write_file :
      (s : fs.State) (p b : Bytes)
      → (fs.write_file s p b).1 ≡ true
      → fs.read_file (fs.write_file s p b).0 p ≡ b
  pub read-write_file_other :
      (s : fs.State) (p q b : Bytes)
      → q ≢ p
      → fs.read_file (fs.write_file s p b).0 q ≡ fs.read_file s q
  pub writable-write_file :
      (s : fs.State) (p q b : Bytes)
      → q ≢ p
      → fs.writable (fs.write_file s p b).0 q ≡ fs.writable s q
  pub readable-write_file :
      (s : fs.State) (p b : Bytes)
      → (fs.write_file s p b).1 ≡ true
      → fs.readable (fs.write_file s p b).0 p ≡ true
  pub readable-write_file_other :
      (s : fs.State) (p q b : Bytes)
      → fs.readable s q ≡ true
      → fs.readable (fs.write_file s p b).0 q ≡ true
  pub readable-unlink :
      (s : fs.State) (p : Bytes)
      → (fs.unlink s p).1 ≡ true
      → fs.readable (fs.unlink s p).0 p ≡ false
  pub readable-unlink_other :
      (s : fs.State) (p q : Bytes)
      → fs.readable s q ≡ false
      → fs.readable (fs.unlink s p).0 q ≡ false

pub record IsJson (json : Json) : Type 0 where
  pub parse-styled : (v : json.Value) → json.parse (json.styled v) ≡ v
  pub flag-set_flag :
      (k : Bytes) (b : Bool) (v : json.Value) → json.flag (json.set_flag k b v) k ≡ b
