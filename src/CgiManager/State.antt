-- ===== src/CgiManager/State.antt =====
-- src/CGIManager.cpp: the object, its copies, and the paths of a script. -1 is `none`, for the pid and
-- for both ends of the pipe; so is a null array.
use left_hook_roll.Dict.{Dict}
use left_hook_roll.Text.{codes, rfind, Bytes}
use left_hook_roll.Prelude.{
  ◌+◌, drop, take, ◌==◌, List, false, some, ℕ, if◌then◌else◌, Bool, ◌∷◌, [], Option, none,
}

pub record CgiManager : Type 0 where
  pub pid : Option ℕ
  pub script_argv : List Bytes
  pub env : Dict
  pub execve_envp : Option (List Bytes)
  pub execve_argv : Option (List Bytes)
  pub pipe_read : Option ℕ
  pub pipe_write : Option ℕ

unfoldable pub new_cgi_manager : CgiManager
new_cgi_manager = record {
  pid = none;
  script_argv = [];
  env = [];
  execve_envp = none;
  execve_argv = none;
  pipe_read = none;
  pipe_write = none;
}

-- The copy constructor: the pipe and the arrays stay with the source.
unfoldable pub copy_cgi : CgiManager → CgiManager
copy_cgi other = record other {
  execve_envp = none;
  execve_argv = none;
  pipe_read = none;
  pipe_write = none;
}

unfoldable pub free_execve_arrays : CgiManager → CgiManager
free_execve_arrays c = record c { execve_envp = none; execve_argv = none }

unfoldable pub close_pipes : CgiManager → CgiManager
close_pipes c = record c { pipe_read = none; pipe_write = none }

-- operator=, from another object
unfoldable pub assign_cgi : CgiManager → CgiManager → CgiManager
unfolding free_execve_arrays close_pipes
assign_cgi other c = record (close_pipes (free_execve_arrays c)) {
  pid = other.pid;
  script_argv = other.script_argv;
  env = other.env;
}

-- The bytes that strcpy copies: those before the first NUL.
unfoldable pub c_str : Bytes → Bytes
c_str [] = []
c_str (c ∷ cs) = if c == 0 then [] else c ∷ c_str cs

unfoldable pub resolve_script_directory : Bytes → Bytes
resolve_script_directory path = elim (rfind b'/' path) [
  | none ↦ codes "."
  | some i ↦ if i == 0 then codes "/" else take i path
]

-- !scriptPath.empty() && scriptPath[0] == '/'
unfoldable pub is_absolute : Bytes → Bool
is_absolute [] = false
is_absolute (c ∷ cs) = c == b'/'

unfoldable pub resolve_script_exec_arg : Bytes → Bytes
unfolding is_absolute
resolve_script_exec_arg path =
    if is_absolute path
    then path
    else elim (rfind b'/' path) [ none ↦ path | some i ↦ drop (i + 1) path ]
