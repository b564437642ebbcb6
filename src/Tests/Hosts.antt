-- ===== src/Tests/Hosts.antt =====
-- Hosts to run the code on: one where all is well, one whose database remembers, and faults.
use teslausb_neo.Base.{
  String, Bool, true, false, none, some, [], ◌∷◌, ◌==◌, length, ◌||◌, if◌then◌else◌, ◌≡◌, refl,
  arith, ◌≢◌, eq_iff,
}
use teslausb_neo.Base.Int.{pos}
use teslausb_neo.Host.{Call, sql, run, text, int, null, Answer, History, Host}
use teslausb_neo.Web.Paths.{Filepath}
use teslausb_neo.State.Laws.{stored, IsDatabase, inserts}

abbrev pub calm : Answer
calm = record {
  fault = none;
  text = "";
  names = [];
  entries = [];
  space = record { blocks = 1000; bfree = 400; bavail = 300; bsize = 4096 };
  amount = pos 0;
  modified = pos 0;
  rows = [];
  rows_fault = none;
  cancelled = false;
  signalled = false;
}

abbrev pub faulty : Answer
faulty = record calm { fault = some (record { message = "exit status 1"; not_exist = false }) }

-- String functions that are good enough for the runs below.
abbrev pub host_of : (History → Call → Answer) → Host
host_of answer = record {
  answer = answer;
  trim_space = λ s. s;
  has_part = λ s part. false;
  trim_prefix = λ s prefix. s;
  lines = λ s. s ∷ [];
  split_n3 = λ s. s ∷ "70" ∷ "WPA2" ∷ [];
  fields_of = λ s. s ∷ [];
  itoa = λ n. "n";
  itoa_03 = λ n. "000";
  quote = λ s. s;
  rfc3339 = λ n. "now";
  parse_time = λ s. some (pos 0);
  duration_text = λ n. "1s";
  getenv = λ s. "";
  getpid = pos 1;
  parse_int = λ s. some (pos 5);
  parse_error = λ s. "invalid syntax";
  join = λ parts. elim parts [ [] ↦ "" | p ∷ _ ↦ p ];
  dir = λ s. s;
  base = λ s. s;
  clean = λ s. s;
  abs = λ s. some s;
  rel = λ s t. some t;
}

abbrev pub quiet_host : Host
quiet_host = host_of (λ t c. calm)

abbrev is_run : String → Call → Bool
is_run name (run command _) = command == name
is_run name _ = false

-- All is well but for one command.
abbrev pub without : String → Host
without name = host_of (λ t c. if is_run name c then faulty else calm)

-- The history has a call that inserts the path.
abbrev inserted : History → String → Bool
inserted [] path = false
inserted (c ∷ t) path = inserts c path || inserted t path

abbrev count_answer : History → Call → Answer
count_answer t (sql _ (text path ∷ [])) = record calm {
  amount = if inserted t path then pos 1 else pos 0;
}
count_answer t (run _ _) = faulty
count_answer t _ = calm

-- A host whose database remembers, and on which no command works.
abbrev pub database_host : Host
database_host = host_of count_answer

inserts_fine :
    (c : Call) (t : History) (path : String)
    → inserts c path ≡ true
    → (database_host.answer t c).fault ≡ none
inserts_fine (sql s []) t path h = refl
inserts_fine (sql s (text p ∷ [])) t path h = refl
inserts_fine (sql s (text p ∷ v ∷ vs)) t path h = refl
inserts_fine (sql s (int z ∷ vs)) t path h = refl
inserts_fine (sql s (null ∷ vs)) t path h = refl
inserts_fine (run name args) t path h = absurd (ground arith)
inserts_fine _ t path h = refl

stored-inserted : (t : History) (path : String) → stored database_host t path ≡ inserted t path
unfolding stored
stored-inserted [] path = refl
stored-inserted (c ∷ t) path = ground (arith, stored-inserted t path, inserts_fine c t path)

pub database_host-IsDatabase : IsDatabase database_host
database_host-IsDatabase = record {
  counts = λ t path. refl;
  amounts = λ t path. ground (arith, stored-inserted t path);
}

-- A clock that counts the calls, and a counter that stands still.
abbrev pub still_host : Host
still_host = host_of (λ t c. record calm { text = "write_bytes: 5"; amount = pos (length t) })

-- A host whose functions on paths do what package path/filepath says, for the archive directory
-- and the names in it.
abbrev pub web_host : Host
web_host = record quiet_host {
  join = λ parts. elim parts [
    | [] ↦ ""
    | root ∷ rest ↦ elim rest [ [] ↦ root | e ∷ _ ↦ if e == "." then root else e ]
  ];
  dir = λ s. "/mnt/snap";
  abs = λ s. some "/mnt/snap";
  clean = λ s. if s == "" then "." else s;
}

not_dot : let dot : String = "." in dot ≢ ""
not_dot h = let e : false ≡ true = (eq_iff "." "").1 h in ground (arith, e)

pub web_host-Filepath : Filepath web_host
web_host-Filepath = record {
  clean_text = λ name. ground (arith, eq_iff name "", not_dot);
  join_dot = λ base root a. refl;
  dir_join = λ base root e a flat full dot up. ground (arith, a);
  base_join = λ base root e a flat full dot up. ground (arith, eq_iff e ".", dot);
}
