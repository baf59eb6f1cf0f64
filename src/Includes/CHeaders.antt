-- ===== src/Includes/CHeaders.antt =====
-- The tables of the C headers and of their folders of cpplint.py.
use myframe.Common.{List, [], ◌∷◌}
use myframe.Text.{Text, codes}

-- _C_HEADERS
unfoldable pub c_headers : List Text
c_headers =
    codes "assert.h"
    ∷ codes "complex.h"
    ∷ codes "ctype.h"
    ∷ codes "errno.h"
    ∷ codes "fenv.h"
    ∷ codes "float.h"
    ∷ codes "inttypes.h"
    ∷ codes "iso646.h"
    ∷ codes "limits.h"
    ∷ codes "locale.h"
    ∷ codes "math.h"
    ∷ codes "setjmp.h"
    ∷ codes "signal.h"
    ∷ codes "stdalign.h"
    ∷ codes "stdarg.h"
    ∷ codes "stdatomic.h"
    ∷ codes "stdbool.h"
    ∷ codes "stddef.h"
    ∷ codes "stdint.h"
    ∷ codes "stdio.h"
    ∷ codes "stdlib.h"
    ∷ codes "stdnoreturn.h"
    ∷ codes "string.h"
    ∷ codes "tgmath.h"
    ∷ codes "threads.h"
    ∷ codes "time.h"
    ∷ codes "uchar.h"
    ∷ codes "wchar.h"
    ∷ codes "wctype.h"
    ∷ codes "aio.h"
    ∷ codes "arpa/inet.h"
    ∷ codes "cpio.h"
    ∷ codes "dirent.h"
    ∷ codes "dlfcn.h"
    ∷ codes "fcntl.h"
    ∷ codes "fmtmsg.h"
    ∷ codes "fnmatch.h"
    ∷ codes "ftw.h"
    ∷ codes "glob.h"
    ∷ codes "grp.h"
    ∷ codes "iconv.h"
    ∷ codes "langinfo.h"
    ∷ codes "libgen.h"
    ∷ codes "monetary.h"
    ∷ codes "mqueue.h"
    ∷ codes "ndbm.h"
    ∷ codes "net/if.h"
    ∷ codes "netdb.h"
    ∷ codes "netinet/in.h"
    ∷ codes "netinet/tcp.h"
    ∷ codes "nl_types.h"
    ∷ codes "poll.h"
    ∷ codes "pthread.h"
    ∷ codes "pwd.h"
    ∷ codes "regex.h"
    ∷ codes "sched.h"
    ∷ codes "search.h"
    ∷ codes "semaphore.h"
    ∷ codes "setjmp.h"
    ∷ codes "signal.h"
    ∷ codes "spawn.h"
    ∷ codes "strings.h"
    ∷ codes "stropts.h"
    ∷ codes "syslog.h"
    ∷ codes "tar.h"
    ∷ codes "termios.h"
    ∷ codes "trace.h"
    ∷ codes "ulimit.h"
    ∷ codes "unistd.h"
    ∷ codes "utime.h"
    ∷ codes "utmpx.h"
    ∷ codes "wordexp.h"
    ∷ codes "a.out.h"
    ∷ codes "aliases.h"
    ∷ codes "alloca.h"
    ∷ codes "ar.h"
    ∷ codes "argp.h"
    ∷ codes "argz.h"
    ∷ codes "byteswap.h"
    ∷ codes "crypt.h"
    ∷ codes "endian.h"
    ∷ codes "envz.h"
    ∷ codes "err.h"
    ∷ codes "error.h"
    ∷ codes "execinfo.h"
    ∷ codes "fpu_control.h"
    ∷ codes "fstab.h"
    ∷ codes "fts.h"
    ∷ codes "getopt.h"
    ∷ codes "gshadow.h"
    ∷ codes "ieee754.h"
    ∷ codes "ifaddrs.h"
    ∷ codes "libintl.h"
    ∷ codes "mcheck.h"
    ∷ codes "mntent.h"
    ∷ codes "obstack.h"
    ∷ codes "paths.h"
    ∷ codes "printf.h"
    ∷ codes "pty.h"
    ∷ codes "resolv.h"
    ∷ codes "shadow.h"
    ∷ codes "sysexits.h"
    ∷ codes "ttyent.h"
    ∷ codes "dlfcn.h"
    ∷ codes "elf.h"
    ∷ codes "features.h"
    ∷ codes "gconv.h"
    ∷ codes "gnu-versions.h"
    ∷ codes "lastlog.h"
    ∷ codes "libio.h"
    ∷ codes "link.h"
    ∷ codes "malloc.h"
    ∷ codes "memory.h"
    ∷ codes "netash/ash.h"
    ∷ codes "netatalk/at.h"
    ∷ codes "netax25/ax25.h"
    ∷ codes "neteconet/ec.h"
    ∷ codes "netipx/ipx.h"
    ∷ codes "netiucv/iucv.h"
    ∷ codes "netpacket/packet.h"
    ∷ codes "netrom/netrom.h"
    ∷ codes "netrose/rose.h"
    ∷ codes "nfs/nfs.h"
    ∷ codes "nl_types.h"
    ∷ codes "nss.h"
    ∷ codes "re_comp.h"
    ∷ codes "regexp.h"
    ∷ codes "sched.h"
    ∷ codes "sgtty.h"
    ∷ codes "stab.h"
    ∷ codes "stdc-predef.h"
    ∷ codes "stdio_ext.h"
    ∷ codes "syscall.h"
    ∷ codes "termio.h"
    ∷ codes "thread_db.h"
    ∷ codes "ucontext.h"
    ∷ codes "ustat.h"
    ∷ codes "utmp.h"
    ∷ codes "values.h"
    ∷ codes "wait.h"
    ∷ codes "xlocale.h"
    ∷ codes "arm_neon.h"
    ∷ codes "emmintrin.h"
    ∷ codes "xmmintin.h"
    ∷ []

-- C_STANDARD_HEADER_FOLDERS
unfoldable pub c_standard_header_folders : List Text
c_standard_header_folders =
    codes "sys"
    ∷ codes "arpa"
    ∷ codes "asm-generic"
    ∷ codes "bits"
    ∷ codes "gnu"
    ∷ codes "net"
    ∷ codes "netinet"
    ∷ codes "protocols"
    ∷ codes "rpc"
    ∷ codes "rpcsvc"
    ∷ codes "scsi"
    ∷ codes "drm"
    ∷ codes "linux"
    ∷ codes "misc"
    ∷ codes "mtd"
    ∷ codes "rdma"
    ∷ codes "sound"
    ∷ codes "video"
    ∷ codes "xen"
    ∷ []
