-- ===== src/Download.antt =====
-- internal/download: the progress of a download, the download itself, and the placing of a file.
-- Files hold lists of bytes; times are seconds since the download began. HTTP, the hash and the
-- operating system answer through the arguments.
pub mod Progress
pub mod Placement
use open_v_center_agent_hype.Base.{
  ℕ, suc, ◌+◌, ◌-◌, ◌/◌, ◌*◌, String, Bool, true, false, not, ◌&&◌, ◌||◌, Option, none, some, List,
  [], ◌∷◌, ◌++◌, ltb, leb, length, if◌then◌else◌,
}

abbrev pub Bytes : Type 0
Bytes = List ℕ

-- One read of the body, written to the file at once.
pub record Chunk : Type 0 where
  pub bytes : Bytes
  pub at : ℕ

-- `total_bytes` is `none` where the size is unknown (zero or negative in the source).
pub record ProgressWriter : Type 0 where
  pub total_bytes : Option ℕ
  pub written : ℕ
  pub last_reported_bytes : ℕ
  pub last_report_time : ℕ

abbrev due_by_size : Option ℕ → ℕ → Bool
due_by_size none since = false
due_by_size (some total) since = leb (total / 10) since

-- The report of a write, if it makes one.
unfoldable pub write : Chunk → ProgressWriter → ProgressWriter × Option ℕ
write c pw =
    let w = pw.written + length c.bytes in
    if due_by_size pw.total_bytes (w - pw.last_reported_bytes)
      || leb 30 (c.at - pw.last_report_time)
    then (record pw { written = w; last_reported_bytes = w; last_report_time = c.at }, some w)
    else (record pw { written = w }, none)

abbrev or_nothing : Option ℕ → List ℕ → List ℕ
or_nothing none rest = rest
or_nothing (some n) rest = n ∷ rest

-- io.CopyBuffer: the bytes in the file and the reports, in order.
unfoldable pub copy : ProgressWriter → List Chunk → Bytes × List ℕ
copy pw [] = ([], [])
copy pw (c ∷ cs) =
    let rest = copy (write c pw).0 cs in (c.bytes ++ rest.0, or_nothing (write c pw).1 rest.1)

-- What the server sends: nothing, or a status and the reads of its body; `complete` says that
-- neither a read nor a write of the body failed after those.
pub data Reply : Type 0 where
  unreachable : Reply
  answers : ℕ → List Chunk → Bool → Reply

pub record Downloaded : Type 0 where
  pub file : Option Bytes
  pub reports : List ℕ
  pub error : Option String

abbrev fresh : Option ℕ → ProgressWriter
fresh total = record {
  total_bytes = total;
  written = 0;
  last_reported_bytes = 0;
  last_report_time = 0;
}

received : Option ℕ → Reply → Downloaded
received total unreachable = record {
  file = some [];
  reports = [];
  error = some "HTTP GET request failed";
}
received total (answers status chunks complete) =
    if ltb status 200 || leb 300 status
    then record { file = some []; reports = []; error = some "download failed with HTTP status" }
    else record {
      file = some (copy (fresh total) chunks).0;
      reports = (copy (fresh total) chunks).1;
      error = if complete then none else some "failed to write download to disk";
    }

-- DownloadFile; `old` is what the destination held.
unfoldable pub download_file : Option ℕ → Bool → Option Bytes → Reply → Downloaded
unfolding received copy
download_file total creates old reply =
    if creates
    then received total reply
    else record { file = old; reports = []; error = some "failed to create temp file" }

-- GetContentLength, from the answer to the HEAD request: its status and the header's number.
unfoldable pub get_content_length : Option (ℕ × Option ℕ) → Option ℕ
get_content_length none = none
get_content_length (some (status, n)) = if ltb status 200 || leb 300 status then none else n

-- The destination of PlaceFileWithOverwrite.
pub data Destination : Type 0 where
  missing directory : Destination
  regular : Bytes → Destination

pub record Placed : Type 0 where
  pub tmp : Option Bytes
  pub dest : Destination
  pub error : Option String

-- The operating system's answers to one placement.
pub record Placing : Type 0 where
  pub makes_dirs : Bool
  pub removes : Bool
  pub renames : Bool

renamed : Placing → Option Bytes → Destination → Placed
renamed p none dest = record { tmp = none; dest = dest; error = some "failed to rename temp file" }
renamed p (some b) dest =
    if p.renames
    then record { tmp = none; dest = regular b; error = none }
    else record { tmp = some b; dest = dest; error = some "failed to rename temp file" }

cleared : Placing → Bool → Option Bytes → Destination → Placed
cleared p overwrite tmp missing = renamed p tmp missing
cleared p overwrite tmp directory = record {
  tmp = tmp;
  dest = directory;
  error = some "destination path is an existing directory";
}
cleared p overwrite tmp (regular b) =
    if not overwrite
    then record { tmp = tmp; dest = regular b; error = some "destination file already exists" }
    else if not p.removes
    then record {
      tmp = tmp;
      dest = regular b;
      error = some "failed to remove existing destination file";
    }
    else renamed p tmp missing

unfoldable pub place_file_with_overwrite : Placing → Bool → Option Bytes → Destination → Placed
unfolding cleared renamed
place_file_with_overwrite p overwrite tmp dest =
    if p.makes_dirs
    then cleared p overwrite tmp dest
    else record { tmp = tmp; dest = dest; error = some "failed to create destination directories" }
