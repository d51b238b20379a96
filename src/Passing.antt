-- ===== src/Passing.antt =====
-- read_fd.cpp and write_fd.cpp, as they are built with HAVE_MSGHDR_MSG_CONTROL: descriptors that one
-- process hands to another; unixdomain/openfile and unixdomain/myopen.cpp, which open a file by a
-- child; and the child's part of server/child05.cpp: its start, and the loop that serves the
-- connections handed to it. The kernel is what `sendmsg` and `recvmsg` answer. `execl` is taken to
-- run the program, and `Socketpair`, `Dup2` and `web_child` to return, as are the `Close` and the
-- `Write` of that loop.
pub mod Handover
mod Tests
use network_program.Prelude.{
  ℕ, zero, suc, ◌%◌, Bool, true, false, not, ◌&&◌, Option, none, some, List, [], ◌∷◌, length, ltb,
  ◌==◌, if◌then◌else◌,
}
use network_program.Prelude.Int.{ℤ, pos, negsuc}
use network_program.Sys.{Errno, Outcome, done, exits, waits, fault, ◌>>=◌}

-- A control message with one descriptor.
pub record Cmsg : Type 0 where
  pub cmsg_len : ℕ
  pub cmsg_level : ℕ
  pub cmsg_type : ℕ
  pub fd : ℕ

-- What `sendmsg` is handed, and what `recvmsg` stores.
pub record Message : Type 0 where
  pub bytes : List ℕ
  pub control : Option Cmsg

-- `CMSG_LEN(sizeof(int))`, SOL_SOCKET and SCM_RIGHTS.
abbrev pub cmsg_len_int : ℕ
cmsg_len_int = 20

abbrev pub sol_socket : ℕ
sol_socket = 1

abbrev pub scm_rights : ℕ
scm_rights = 1

-- The message of `write_fd`, which returns what `sendmsg` does.
unfoldable pub write_fd : List ℕ → ℕ → Message
write_fd bytes sendfd = record {
  bytes = bytes;
  control = some (record {
    cmsg_len = cmsg_len_int;
    cmsg_level = sol_socket;
    cmsg_type = scm_rights;
    fd = sendfd;
  });
}

-- `recvmsg`: -1, or a message, which is the end of the stream where it has no bytes.
pub data Received : Type 0 where
  refused : Errno → Received
  received : Message → Received

-- An `int` for a descriptor: without a value, -1, or a descriptor.
pub data Slot : Type 0 where
  unset minus_one : Slot
  holds : ℕ → Slot

-- `*recvfd`, from the control message.
unfoldable pub read_control : Option Cmsg → Outcome Slot
read_control none = done minus_one
read_control (some c) =
    if c.cmsg_len == cmsg_len_int
    then (if c.cmsg_level == sol_socket
        then (if c.cmsg_type == scm_rights then done (holds c.fd) else exits)
        else exits)
    else done minus_one

-- `read_fd`: the count that it returns, and `*recvfd` afterwards.
unfoldable pub read_fd : Received → Slot → Outcome (ℤ × Slot)
unfolding read_control
read_fd (refused e) recvfd = done (negsuc 0, recvfd)
read_fd (received m) recvfd = elim m.bytes [
  | [] ↦ done (pos 0, recvfd)
  | b ∷ bs ↦ read_control m.control >>= λ s. done (pos (suc (length bs)), s)
]

-- `Read_fd`.
unfoldable pub read_fd_or_exit : Received → Slot → Outcome (ℕ × Slot)
unfolding read_fd
read_fd_or_exit r recvfd =
    read_fd r recvfd >>= λ p. elim p.0 [ negsuc n ↦ exits | pos n ↦ done (n, p.1) ]

-- `open` and `sendmsg` in the child: a descriptor or `errno`, and success or `errno`.
pub data Opened : Type 0 where
  opened : ℕ → Opened
  not_opened : ℕ → Opened

-- How a process ends, as `Waitpid` reports it.
pub data Status : Type 0 where
  exited : ℕ → Status
  signalled : Status

-- `exit((errno > 0) ? errno : 255)`, of which the parent sees eight bits.
abbrev pub exit_errno : ℕ → Status
exit_errno errno = exited ((if ltb 0 errno then errno else 255) % 256)

-- `main` of openfile with its four arguments: its end, and the message that it sent.
unfoldable pub openfile : Opened → Option ℕ → Status × Option Message
unfolding write_fd
openfile (not_opened errno) sent = (exit_errno errno, none)
openfile (opened fd) (some errno) = (exit_errno errno, none)
openfile (opened fd) none = (exited 0, some (write_fd (0 ∷ []) fd))

-- What `my_open` returns, with `errno` where it sets it.
pub data MyOpen : Type 0 where
  returns_fd : ℕ → MyOpen
  fails : ℕ → MyOpen
  fails_alone : MyOpen

-- A function that returns its `int fd`.
abbrev return_slot : Slot → Outcome MyOpen
return_slot unset = fault
return_slot minus_one = done fails_alone
return_slot (holds fd) = done (returns_fd fd)

-- `my_open`, behind `Fork`.
unfoldable pub my_open : Status → Received → Outcome MyOpen
unfolding read_fd_or_exit
my_open signalled r = exits
my_open (exited zero) r = read_fd_or_exit r unset >>= λ p. return_slot p.1
my_open (exited (suc n)) r = done (fails (suc n))

-- `child_main` of child05.cpp: the connections it has served where it waits for the next.
-- `connfd` keeps its value from round to round.
unfoldable pub child_main : List Received → Slot → Outcome (List ℕ)
unfolding read_fd_or_exit
child_main [] connfd = done []
child_main (r ∷ rs) connfd = read_fd_or_exit r connfd >>= λ p. elim p.0 [
  | zero ↦ exits
  | suc n ↦ elim p.1 [
    | unset ↦ fault
    | minus_one ↦ exits
    | holds fd ↦ child_main rs (holds fd) >>= λ more. done (fd ∷ more)
  ]
]

-- `Close`: the descriptors that stay open. A descriptor that is not open ends the process.
unfoldable pub close_fd : ℕ → (ℕ → Bool) → Outcome (ℕ → Bool)
close_fd f is_open = if is_open f then done (λ g. not (f == g) && is_open g) else exits

-- The branch of the child in `child_make`, behind `Dup2`, with what follows in `child_main`.
unfoldable pub child_start : ℕ → ℕ → (ℕ → Bool) → List Received → Slot → Outcome (List ℕ)
unfolding child_main
child_start pipefd listenfd is_open rs connfd = close_fd pipefd is_open >>= λ once.
    close_fd pipefd once >>= λ twice. close_fd listenfd twice >>= λ _. child_main rs connfd
