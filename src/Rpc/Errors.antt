-- ===== src/Rpc/Errors.antt =====
-- rpc_posix_error (daemon/rpc.h): the POSIX error of a message. The constants of <cerrno> are constructors.
use forkfs.Common.{Bool, ◌||◌, [], ◌∷◌, String, if◌then◌else◌}
use forkfs.Common.Bytes.{Bytes, codes, bytes_eq, starts_with}

pub data Errno : Type 0 where
  etimedout enotconn enoent enametoolong estale eexist ebusy enotempty enotdir : Errno
  eisdir erofs efbig eloop emfile ebadf enotsup einval eio : Errno

-- message.find(text)!=message.npos
unfoldable pub holds : Bytes → Bytes → Bool
holds [] text = starts_with [] text
holds (c ∷ rest) text = starts_with (c ∷ rest) text || holds rest text

abbrev pub is : Bytes → String → Bool
is message text = bytes_eq message (codes text)

abbrev pub has : Bytes → String → Bool
has message text = holds message (codes text)

unfoldable pub rpc_posix_error : Bytes → Errno
rpc_posix_error message =
    if is message "RPC timeout"
    then etimedout
    else if is message "RPC connect failed"
        || (is message "RPC connection failed"
            || (is message "RPC send failed" || is message "truncated RPC reply"))
    then enotconn
    else if is message "object root not found"
    then enoent
    else if is message "path exceeds mount protocol limit"
    then enametoolong
    else if is message "path not found" || is message "source not found"
    then enoent
    else if has message "invalid stale" || has message "invalid mount view"
    then estale
    else if is message "inode is no longer linked"
        || (has message "invalid or expired session" || has message "invalid file handle")
    then estale
    else if has message "already exists"
    then eexist
    else if has message "busy" || has message "outstanding handles"
    then ebusy
    else if has message "not empty"
    then enotempty
    else if has message "not a directory"
    then enotdir
    else if has message "cannot read a directory"
    then eisdir
    else if has message "read-only"
    then erofs
    else if has message "256 KiB"
    then efbig
    else if has message "too many symbolic links"
    then eloop
    else if has message "handle limit" || has message "cursor limit"
    then emfile
    else if has message "not readable" || has message "not writable"
    then ebadf
    else if has message "unsupported"
    then enotsup
    else if has message "NUL"
        || (has message "printable ASCII"
            || (has message "path must"
                || (has message "invalid"
                    || (has message "forbidden"
                        || (has message "inode types differ" || has message "cannot move")))))
    then einval
    else eio
