-- ===== src/Validator/Lists.antt =====
-- shared/security/code_validator.py: the deny lists.
use py_faa_s.Prelude.{String, List, [], ◌∷◌}

abbrev pub denied_builtins : List String
denied_builtins = "eval" ∷ "exec" ∷ "compile" ∷ "__import__" ∷ "open" ∷ "input" ∷ []

abbrev pub denied_modules : List String
denied_modules =
    "subprocess" ∷ "socket" ∷ "os" ∷ "sys" ∷ "ctypes" ∷ "cffi" ∷ "importlib" ∷ "imp" ∷ "builtins"
    ∷ "shutil" ∷ "pathlib" ∷ "glob" ∷ "tempfile" ∷ "pty" ∷ "atexit" ∷ "signal" ∷ "multiprocessing"
    ∷ "threading" ∷ "concurrent" ∷ "asyncio" ∷ "ssl" ∷ "http" ∷ "urllib" ∷ "ftplib" ∷ "smtplib"
    ∷ "telnetlib" ∷ "xmlrpc" ∷ "pickle" ∷ "shelve" ∷ "marshal" ∷ "copyreg" ∷ "code" ∷ "codeop"
    ∷ "dis" ∷ "inspect" ∷ "gc" ∷ "weakref" ∷ []

abbrev pub denied_attributes : List String
denied_attributes =
    "system" ∷ "popen" ∷ "spawn" ∷ "exec" ∷ "execve" ∷ "execvp" ∷ "fork" ∷ "kill" ∷ "listdir"
    ∷ "getcwd" ∷ "chdir" ∷ "environ" ∷ "__dict__" ∷ "__class__" ∷ "__bases__" ∷ "__subclasses__"
    ∷ "__mro__" ∷ "__globals__" ∷ "__builtins__" ∷ "__code__" ∷ "__closure__" ∷ []
