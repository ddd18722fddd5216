-- ===== src/Lib.antt =====
-- Verification library of fma-common, a header-only C++ library of text, buffer, stream and
-- concurrency utilities (all of its code is in fma-common/*.h).
--
-- Parts and files:
-- Common.antt and Common/: shared names, Boolean tests, lists over the native numbers, texts as
--   lists of bytes, integers, the algebra of exclusive or on words, and in Common/Threads.antt the
--   sums over a number of threads.
-- Encrypt.antt: fma-common/encrypt.h. Encrypt/Blowfish.antt is `Blowfish` (SetKey, EncryptBlock,
--   DecryptBlock, Encrypt, Decrypt, PKCS5PaddingLength, GCD), with its tables in
--   Blowfish/Tables.antt; Envelope.antt is the template `Encryptor`, whose engine is an interface
--   that the cipher meets; Base64.antt and Base16.antt are the encoders, and
--   Md5.antt is `MD5`.
-- TextParser.antt: fma-common/text_parser.h, namespace TextParserUtils. Chars.antt has the classes
--   of bytes (the branch of each compiler), Lines.antt is FindNextLine, Numbers.antt the parsers of
--   integers and Booleans, Fields.antt those of words and CSV fields, and Tuple.antt reads
--   the fields of a line. A parser gets the buffer
--   `[b, e)` as a list of bytes and returns the number of bytes that it consumed.
-- StringUtil.antt: fma-common/string_util.h: trimming, comparing, splitting, and the printing of
--   integers, which the parser of TextParser/Numbers.antt reads back.
-- BinaryBuffer.antt: fma-common/binary_buffer.h, class BinaryBuffer: the members as a record, Write,
--   WriteHead and Read as functions from a state to a state.
-- Stream.antt: fma-common/stream_base.h. The abstract classes of streams are records of operations
--   and laws; Stream/Memory.antt fills them with `InputMemoryStream`, and Stream/LineReader.antt is
--   `StreamLineReader` over any input stream, with ReadLine and ReadAllLines.
-- BinaryReadWrite.antt: fma-common/binary_read_write_helper.h, over the same interfaces: a type that
--   can be written is a `Kind`, and BinaryReader and BinaryWriter are functions on the kinds;
--   BinaryReadWrite/Keyed.antt has maps and sets, the container being an interface.
-- BoundedQueue.antt: fma-common/bounded_queue.h; a method is an attempt under the mutex, which may
--   wait; BoundedQueue/History.antt has the runs of a queue.
-- Pipeline.antt: fma-common/pipeline.h, class PipelineStage: Push, RunTask, CheckQueueNolock,
--   WaitTillClear, IsClear and Stop on the list of tasks, and `Runs`, the states that a stage reaches
--   when the thread pool ends its tasks in any order.
-- Configuration.antt: fma-common/configuration.h, class Configuration: AddOption, AddBinary, Parse and
--   ParseAndRemove, with the members of OptionBase (fma-common/option.h) that they use;
--   Configuration/Typed.antt is `Check` of the template Option of that file.
-- SpinLock.antt: fma-common/rw_lock.h, class SpinningRWLock, as the steps of any number of threads, each
--   one atomic operation. TlsLock.antt: InterruptableTLSRWLock of the same file, in the same way.
-- ThreadId.antt: fma-common/thread_id.h, the identifiers of ThreadIdAssigner.
--
-- Conventions: a size_t wraps at 2 ^ 64 and a uint32_t at 2 ^ 32, written out. A `char` is signed
-- in the source: a byte from 128 on is a negative one. Undefined behaviour is a result of its
-- own. The loops are by recursion on the text or on the number of rounds that are left, so that
-- most need no fuel. GCD recurses with fuel of its smaller argument, which shrinks on every step;
-- the loops of StreamLineReader have fuel of the bytes that are left and two more, or one more,
-- since every round but the last consumes a byte or empties the buffer. The bytes that malloc
-- leaves uninitialised are a parameter of the buffer's functions, as is the memory of an
-- uninitialised variable. The atomic operations of the locks take effect in one order (sequential
-- consistency), which is more than the acquire and release orders of fma-common/atomic_ops.h
-- promise. A reader of lines takes any stream that reads at least a byte while there are some,
-- the binary reader one that reads as many as were asked for.
--
-- Not modelled: files, HDFS, MySQL and snappy streams, threads of the operating system, floating
-- point parsing and printing, loggers, condition variables and which threads they wake, JSON
-- files of options, the `Serialize` members of other types, and the libraries copied into the
-- tree (json.hpp, date.h, libhdfs3, cpplint).
pub mod Common
pub mod BinaryReadWrite
pub mod Stream
pub mod BinaryBuffer
pub mod BoundedQueue
pub mod Configuration
pub mod Encrypt
pub mod Pipeline
pub mod SpinLock
pub mod StringUtil
pub mod TextParser
pub mod ThreadId
pub mod TlsLock
