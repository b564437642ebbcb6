-- ===== src/Host/Defs.antt =====
-- Calls, answers, and the parameter record `Host`.
use teslausb_neo.Base.{ℕ, String, Bool, Option, List}
use teslausb_neo.Base.Int.{ℤ}

-- A parameter of an SQL statement, or what Scan stored in one of its destinations.
pub data Value : Type 0 where
  text : String → Value
  int : ℤ → Value
  null : Value

pub data Call : Type 0 where
  -- exec.Command(name, args...), run to its end; the answer has its output and its error
  run : String → List String → Call
  -- os.WriteFile, os.ReadFile, os.Stat, os.Lstat, os.Symlink, os.MkdirAll, os.Remove, os.ReadDir
  write_file : String → String → Call
  read_file : String → Call
  stat : String → Call
  lstat : String → Call
  symlink : String → String → Call
  mkdir_all : String → Call
  remove : String → Call
  read_dir : String → Call
  -- (os.DirEntry).Info of a name in a directory
  entry_info : String → String → Call
  chmod : String → ℕ → Call
  -- os.CreateTemp with this pattern, and a write to the file that it opened
  create_temp : String → Call
  write_temp : String → String → Call
  glob : String → Call
  -- syscall.Statfs
  statfs : String → Call
  -- one SQL statement, with its parameters
  sql : String → List Value → Call
  -- sql.Open of the database at this path, and (*sql.DB).Close
  open_database : String → Call
  close_database : Call
  last_insert_id : Call  -- result.LastInsertId() of the statement before
  -- http.DefaultClient.Do of a POST: address, headers, body
  post : String → List (String × String) → String → Call
  -- time.Now, and a wait of so many seconds beside `ctx.Done()`
  now : Call
  wait : ℤ → Call
  sleep : ℤ → Call  -- time.Sleep, which nothing interrupts
  -- ctx.Err() is asked for without waiting
  poll_context : Call
  -- one look at the channel of signal.Notify, and the cancel function of main's context
  receive_signal : Call
  cancel_context : Call
  -- http.ServeFile: it reads the file of this path, or lists the directory
  serve_file : String → Call
  -- sdnotify's connection to a socket, and the datagram that it writes there
  dial : String → Call
  notify_socket : String → Call

pub record Fault : Type 0 where
  pub message : String  -- err.Error()
  pub not_exist : Bool  -- os.IsNotExist(err)

-- A row of a query: the error of its Scan, and what Scan stored in its destinations, in order.
pub record Row : Type 0 where
  pub scan_fault : Option Fault
  pub columns : List Value

-- Blocks, free blocks, blocks free to users, and the block size: uint64 numbers.
pub record Space : Type 0 where
  pub blocks : ℕ
  pub bfree : ℕ
  pub bavail : ℕ
  pub bsize : ℕ

-- The parts of an answer that the call does not set are not read.
pub record Answer : Type 0 where
  pub fault : Option Fault
  pub text : String
  pub names : List String  -- the paths of os.Glob
  pub entries : List (String × Bool)  -- the entries of os.ReadDir: name, and whether a directory
  pub space : Space  -- the fields of syscall.Statfs_t
  pub amount : ℤ
  pub modified : ℤ  -- the ModTime of an os.FileInfo, whose Size is the amount
  -- the rows that a query gives, up to the error of rows.Err() if there is one
  pub rows : List Row
  pub rows_fault : Option Fault
  pub cancelled : Bool  -- the context was done
  pub signalled : Bool  -- a signal was received

abbrev pub History : Type 0
History = List Call

pub record Host : Type 0 where
  pub answer : History → Call → Answer
  -- package strings
  pub trim_space : String → String
  pub has_part : String → String → Bool  -- strings.Contains(text, part)
  pub trim_prefix : String → String → String  -- strings.TrimPrefix(text, prefix)
  pub lines : String → List String  -- strings.Split(text, "\n")
  pub split_n3 : String → List String  -- strings.SplitN(text, ":", 3)
  pub fields_of : String → List String  -- strings.Fields
  -- package strconv, and the verbs %d, %03d and %q
  pub itoa : ℤ → String
  pub itoa_03 : ℤ → String
  pub quote : String → String
  -- package time: Format(time.RFC3339), Parse("2006-01-02 15:04:05", text), and the text of a
  -- duration, truncated to seconds
  pub rfc3339 : ℤ → String
  pub parse_time : String → Option ℤ
  pub duration_text : ℤ → String
  -- os.Getenv and os.Getpid: the environment of the process does not change
  pub getenv : String → String
  pub getpid : ℤ
  pub parse_int : String → Option ℤ
  pub parse_error : String → String  -- the message where parse_int has no value
  -- package path/filepath
  pub join : List String → String
  pub dir : String → String
  pub base : String → String
  pub clean : String → String
  pub abs : String → Option String
  pub rel : String → String → Option String
