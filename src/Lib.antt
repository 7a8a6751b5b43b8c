-- ===== src/Lib.antt =====
-- BrainhairOS: a model of the core of the repository's Python code, with its correctness theorems.
--
-- game/ is a simulated Unix: a system has a virtual file system (game/core/vfs.py), a process table
-- (game/core/process.py) and users and groups (game/core/permissions.py). The shell and the kernel
-- of the game look up a user, ask the permission system with the mode, owner and group of an inode
-- of the file system, and keep the number of the current directory and the effective ids in a
-- record of the process table. None of the three calls another. The packet queue of a system
-- (game/core/packet_queue.py) is its network device. A terminal (game/core/tty.py) stands
-- between the player's keys and a process. compiler/ is the compiler of the language Brainhair: its
-- lexer (compiler/lexer.py) makes the tokens that the parser reads, its symbol table
-- (compiler/symbols.py) serves the type checker, and its driver runs the ownership checker
-- (compiler/ownership.py) over the syntax tree of the parser (compiler/ast_nodes.py) and stops at
-- errors.
--
-- Prelude
--   Tests, Lists, Dict, Int, Decimal and Split: Boolean tests, lists on the native numbers, a Python
--   dict as an association list in insertion order, integers, numbers in decimal, and texts that are
--   split and joined at a character.
-- Game.Vfs, of game/core/vfs.py
--   Inode has FileType, Inode and its tests. PathName has the string methods that take paths apart.
--   State has the class VFS. Resolve is _resolve_path. Place has what the operations share: the
--   search for the parent directory and the write of a new entry. Create has mkdir, create_file,
--   symlink and create_device, Remove has unlink, Access has read_file, write_file, list_dir, stat,
--   lstat and exists (here path_exists). Tree and its children say what a well-formed table is and
--   that the operations keep it so; Effects says what they change, Leads and Success when mkdir
--   and unlink succeed, Returns when resolution ends; Walk, Landing, Names and ModeString are about resolution,
--   paths and the string that ls shows.
-- Game.Process, of game/core/process.py
--   ProcessManager is the class of that name. Table has the invariant, Calls the runs, Signals the
--   effect of signals and damage, Reaping and Orphans the cleanup of dead processes.
-- Game.Permissions, of game/core/permissions.py
--   PermissionSystem is the class of that name. Access is about has_permission, Accounts about the
--   operations that change the accounts, Login about names and passwords.
-- Game.Tty, of game/core/tty.py
--   TerminalAttributes and Tty are the classes TerminalAttributes and TTY; read, write,
--   process_input and the rest bear the names of the methods. Manager is TTYManager. Lines is about
--   bytes that are typed, Reading about what read gives of them.
-- Game.Packets, of game/core/packet_queue.py
--   Bytes has what the file uses of struct and of byte strings, Ip, Icmp, Tcp and Udp a builder and a
--   parser each, under the names of the functions (with no underscore in front), Firewall
--   _check_packet_firewall and Queue the class PacketQueue. IpRoundTrip, IcmpRoundTrip and
--   TcpRoundTrip are about packets that are built and parsed, Subnets about the sources of rules.
-- Compiler.Lexer, of compiler/lexer.py
--   Kinds has the constants of token types, Keywords lookup_keyword and get_keyword_name, Cursor the
--   state of Lexer with advance, Literals read_number, read_string, read_char and read_identifier,
--   Tokens the loop of tokenize, a round at a time. Progress, Readers, Strings, Quoted, Rounds and
--   Order are about where rounds begin and end; Columns, Quoting, Decimal, Lexemes, Printing and
--   RoundTrip about sources that are written out from what they mean.
-- Compiler.Symbols, of compiler/symbols.py
--   Types has TypeInfo and the functions on it, Table Scope and SymbolTable, whose stack has the
--   innermost scope first. Environment says what a table promises, with calls and their answers;
--   Refinement relates the two.
-- Compiler.Ownership, of compiler/ownership.py
--   Syntax has the nodes of compiler/ast_nodes.py as far as the checker reads them, Scope
--   OwnershipInfo and OwnershipScope, Checker the single steps of OwnershipChecker, Check its walk
--   over the tree. Steps is the induction over that walk, Growth, Each and Invariants are what it
--   is used for. Mentions is about code that does not mention a variable. Errors and Moves are about
--   the errors that are reported.
--
-- An object that the code mutates is a record that an operation returns changed, next to its
-- result; the objects that a dict holds are reached only through that dict, so a change is an
-- insertion. A reading of the clock is an argument `now`. A str of the file system is the list of
-- its code points. Ids and signals are numbers, of the native type; the count of links and the
-- health of a process are integers.
--
-- _resolve_path has no bound on the links that it follows. Its model takes fuel, which stands for
-- the interpreter's limit on nested calls, and gives recursion_limit when that is reached: a
-- RecursionError in the program. The theorems take the fuel as an argument.
--
-- The loop of tokenize takes fuel, one more than the length of the source. The text of the rest of
-- the source and a place stand for `source`, `pos`, `line` and `column` of a Lexer. Where `int` and
-- `chr` read characters, these are ASCII; the limit of Python on the digits of a number is left out.
--
-- Not modelled: the handlers of the built-in devices of vfs.py, which call into other objects (a
-- handler is a parameter, a function on a device state), and inode_to_path; the cpu_time of a
-- process, which nothing sets; the times that a terminal records; the names and the
-- children of scopes, and the parts of the syntax tree that the ownership checker does not read.
-- Of a symbol table, `dump` and the printing of symbols are left out, and a symbol that is defined
-- twice is two values.
-- Of packets, the addresses that build_ip_packet reads are those whose numbers are ASCII digits; what
-- else Python's `int` reads is refused in the model. send_packet, the routes of the virtual network
-- and the times and hops of packets are left out.
-- The network, the kernel and the shell of the game, its script interpreter, and the other passes of
-- the compiler are not in the model.
pub mod Prelude
pub mod Compiler
pub mod Game
