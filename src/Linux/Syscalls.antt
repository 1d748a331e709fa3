-- ===== src/Linux/Syscalls.antt =====
-- The system calls of the Linux filter (crates/clawcrate-sandbox/src/linux.rs). A system call is
-- its name; the numbers that libc gives the names are not used.
use claw_crate.Base.{Text, codes, Bool, true, false, if◌then◌else◌, List, [], ◌∷◌, ◌++◌, map}
use claw_crate.Profiles.Resolve.{NetLevel, no_network, open_network, filtered}

-- `target_arch`: x86_64, or any other, which for the releases is aarch64.
pub data TargetArch : Type 0 where
  x86_64 other_arch : TargetArch

abbrev pub common_syscalls : List Text
common_syscalls = map codes (
    "execve" ∷ "execveat" ∷ "exit" ∷ "exit_group" ∷ "clone" ∷ "wait4" ∷ "waitid" ∷ "set_tid_address"
    ∷ "set_robust_list" ∷ "get_robust_list" ∷ "gettid" ∷ "getpid" ∷ "getppid" ∷ "getpgid"
    ∷ "setpgid" ∷ "getsid" ∷ "setsid" ∷ "prctl" ∷ "rseq" ∷ "sched_yield" ∷ "sched_getaffinity"
    ∷ "sched_setaffinity" ∷ "sched_getparam" ∷ "sched_setparam" ∷ "sched_getscheduler"
    ∷ "sched_get_priority_max" ∷ "sched_get_priority_min" ∷ "getpriority" ∷ "setpriority" ∷ "capget"
    ∷ "membarrier" ∷ "brk" ∷ "mmap" ∷ "munmap" ∷ "mprotect" ∷ "mremap" ∷ "madvise" ∷ "msync"
    ∷ "mincore" ∷ "mlock" ∷ "munlock" ∷ "mlockall" ∷ "munlockall" ∷ "memfd_create" ∷ "read"
    ∷ "write" ∷ "readv" ∷ "writev" ∷ "pread64" ∷ "pwrite64" ∷ "preadv" ∷ "pwritev" ∷ "openat"
    ∷ "close" ∷ "lseek" ∷ "dup" ∷ "dup3" ∷ "pipe2" ∷ "fcntl" ∷ "ioctl" ∷ "flock" ∷ "fsync"
    ∷ "fdatasync" ∷ "ftruncate" ∷ "truncate" ∷ "fallocate" ∷ "splice" ∷ "tee" ∷ "copy_file_range"
    ∷ "fstat" ∷ "newfstatat" ∷ "statx" ∷ "statfs" ∷ "fstatfs" ∷ "faccessat" ∷ "readlinkat"
    ∷ "getcwd" ∷ "chdir" ∷ "fchdir" ∷ "getdents64" ∷ "umask" ∷ "fchmod" ∷ "fchmodat" ∷ "fchown"
    ∷ "fchownat" ∷ "utimensat" ∷ "mkdirat" ∷ "unlinkat" ∷ "renameat2" ∷ "linkat" ∷ "symlinkat"
    ∷ "mknodat" ∷ "getxattr" ∷ "lgetxattr" ∷ "fgetxattr" ∷ "listxattr" ∷ "llistxattr" ∷ "flistxattr"
    ∷ "setxattr" ∷ "lsetxattr" ∷ "fsetxattr" ∷ "removexattr" ∷ "lremovexattr" ∷ "fremovexattr"
    ∷ "rt_sigaction" ∷ "rt_sigprocmask" ∷ "rt_sigreturn" ∷ "rt_sigpending" ∷ "rt_sigsuspend"
    ∷ "rt_sigtimedwait" ∷ "rt_sigqueueinfo" ∷ "rt_tgsigqueueinfo" ∷ "sigaltstack" ∷ "kill" ∷ "tkill"
    ∷ "tgkill" ∷ "restart_syscall" ∷ "signalfd4" ∷ "clock_gettime" ∷ "clock_getres"
    ∷ "clock_nanosleep" ∷ "gettimeofday" ∷ "nanosleep" ∷ "times" ∷ "timer_create" ∷ "timer_settime"
    ∷ "timer_gettime" ∷ "timer_getoverrun" ∷ "timer_delete" ∷ "timerfd_create" ∷ "timerfd_settime"
    ∷ "timerfd_gettime" ∷ "setitimer" ∷ "getitimer" ∷ "futex" ∷ "ppoll" ∷ "pselect6"
    ∷ "epoll_create1" ∷ "epoll_ctl" ∷ "epoll_pwait" ∷ "eventfd2" ∷ "inotify_init1"
    ∷ "inotify_add_watch" ∷ "inotify_rm_watch" ∷ "getuid" ∷ "geteuid" ∷ "getgid" ∷ "getegid"
    ∷ "getgroups" ∷ "getresuid" ∷ "getresgid" ∷ "setuid" ∷ "setgid" ∷ "setgroups" ∷ "setresuid"
    ∷ "setresgid" ∷ "getrlimit" ∷ "setrlimit" ∷ "prlimit64" ∷ "getrusage" ∷ "uname" ∷ "sysinfo"
    ∷ "getrandom" ∷ "shmget" ∷ "shmat" ∷ "shmdt" ∷ "shmctl" ∷ "semget" ∷ "semop" ∷ "semctl"
    ∷ "msgget" ∷ "msgsnd" ∷ "msgrcv" ∷ "msgctl" ∷ [])

-- What libc has on x86_64 only.
abbrev pub x86_64_syscalls : List Text
x86_64_syscalls = map codes (
    "sendfile" ∷ "open" ∷ "stat" ∷ "lstat" ∷ "access" ∷ "poll" ∷ "select" ∷ "pipe" ∷ "dup2" ∷ "fork"
    ∷ "vfork" ∷ "getdents" ∷ "readlink" ∷ "unlink" ∷ "rename" ∷ "rmdir" ∷ "mkdir" ∷ "link"
    ∷ "symlink" ∷ "chmod" ∷ "chown" ∷ "lchown" ∷ "utime" ∷ "utimes" ∷ "futimesat" ∷ "creat"
    ∷ "mknod" ∷ "epoll_create" ∷ "epoll_wait" ∷ "inotify_init" ∷ "eventfd" ∷ "signalfd" ∷ "alarm"
    ∷ "pause" ∷ "time" ∷ "getpgrp" ∷ "arch_prctl" ∷ "renameat" ∷ [])

abbrev pub network_syscalls : List Text
network_syscalls = map codes (
    "socket" ∷ "socketpair" ∷ "connect" ∷ "bind" ∷ "listen" ∷ "accept" ∷ "accept4" ∷ "getsockname"
    ∷ "getpeername" ∷ "setsockopt" ∷ "getsockopt" ∷ "sendto" ∷ "recvfrom" ∷ "sendmsg" ∷ "recvmsg"
    ∷ "sendmmsg" ∷ "recvmmsg" ∷ "shutdown" ∷ [])

abbrev pub has_network : NetLevel → Bool
has_network no_network = false
has_network open_network = true
has_network (filtered allowed) = true

abbrev pub arch_syscalls : TargetArch → List Text
arch_syscalls x86_64 = x86_64_syscalls
arch_syscalls other_arch = []

unfoldable pub linux_seccomp_allowed_syscalls : TargetArch → NetLevel → List Text
linux_seccomp_allowed_syscalls arch net =
    common_syscalls ++ (arch_syscalls arch ++ (if has_network net then network_syscalls else []))

-- Compiled for the tests of the source.
unfoldable pub linux_seccomp_forbidden_arch_syscalls : TargetArch → List Text
linux_seccomp_forbidden_arch_syscalls x86_64 = map codes ("iopl" ∷ "ioperm" ∷ "modify_ldt" ∷ [])
linux_seccomp_forbidden_arch_syscalls other_arch = []

abbrev pub common_forbidden : List Text
common_forbidden = map codes (
    "ptrace" ∷ "process_vm_readv" ∷ "process_vm_writev" ∷ "kcmp" ∷ "mount" ∷ "umount2" ∷ "unshare"
    ∷ "setns" ∷ "pivot_root" ∷ "chroot" ∷ "init_module" ∷ "finit_module" ∷ "delete_module"
    ∷ "kexec_load" ∷ "reboot" ∷ "swapon" ∷ "swapoff" ∷ "bpf" ∷ "perf_event_open" ∷ "syslog"
    ∷ "add_key" ∷ "keyctl" ∷ "request_key" ∷ "settimeofday" ∷ "clock_settime" ∷ "adjtimex"
    ∷ "sethostname" ∷ "setdomainname" ∷ "userfaultfd" ∷ "io_uring_setup" ∷ "io_uring_enter"
    ∷ "io_uring_register" ∷ "pidfd_getfd" ∷ [])

unfoldable pub linux_seccomp_forbidden_syscalls : TargetArch → List Text
unfolding linux_seccomp_forbidden_arch_syscalls
linux_seccomp_forbidden_syscalls arch =
    common_forbidden ++ linux_seccomp_forbidden_arch_syscalls arch
