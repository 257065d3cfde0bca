-- ===== src/Lib.antt =====
-- A verification library for the C library of YasOS.
--
-- The program is a C library: each source file implements one header on top of a few kernel calls, or,
-- in a build without an operating system, on top of one hook that pushes a break. The parts modelled
-- here do not share state but for errno and the memory; they call each other as in the source, the
-- allocator of noos/malloc.c the memory routines of string.c, the conversions of atoi.c and fnmatch.c the
-- classes of ctype.c, strftime the calendar, and the routines that write strings the memory routines.
--
-- Base      shared names: the libraries', tests on numbers, lists, a `while` on fuel with its
--           invariant rule, and lemmas on bit masks.
-- Memory    the byte-addressed memory, with the 8-bit and 32-bit accesses of string.c.
-- MemOps    string.c: memset (MemOps.Fill), memcpy and mempcpy (MemOps.Copy), memmove
--           (MemOps.Move), memchr and memccpy (MemOps.Seek; Words is about the test for a zero byte in
--           a word, Sought about memchr). The record Copying holds the variables d, s and n and the
--           memory, Filling those of memset, Seeking those of memchr. The loop bodies are functions (byte_up, block_down, put_words, …).
-- FreeList  noos/malloc.c: the free list as the list of chunks its pointers lead through. release is
--           split at the walk (release_after) and the two merges; FreeList.Release is about it.
--           take_fit, last_chunk and find_from are the walks of malloc, heap_grow and realloc;
--           FreeList.Take is about them.
-- NoosHeap  noos/malloc.c: the heap, malloc, calloc, realloc, free, memalign, aligned_alloc,
--           posix_memalign and malloc_usable_size. Invariant states when a heap is well formed for a
--           set of chunks that are handed out, Grow is about the break, Blocks about malloc, free
--           and calloc, Align about memalign, Resize about growing and trimming in place, Realloc
--           about realloc.
-- Ctype     ctype.c, and in Ctype.Inline the inline versions of ctype.h; Ctype.Classes is about them.
-- Bitops    bitops.c; Bitops.Counts is about it.
-- Strto     atoi.c: Strto.Digits and Strto.Loop are about the digit loop, Strto.Ranges about strtoull and
--           strtoll, Strto.Narrow about strtol and strtoul, Strto.Decimal about atoi and atol.
-- Strings   string.c, strings.c and stringc.c: the routines on strings. Order is about the
--           comparisons, Search about strchr and strrchr, Tokens about strspn, strcspn, strpbrk and
--           strtok_r, Find about memcmp and strstr; Copy has the routines that write a string into
--           the memory and is about strcpy and strcat, Bounded about strncat, strncpy, strdup
--           and strndup, Errors has strerror.
-- Sorting   qsort.c: Order has the requirement on the comparison and the counts of elements, Heap
--           is about fix and the building of the heap, Sorted about qsort, Search about bsearch.
-- Calendar  localtime.c: Days is about the conversion of a time and its inverse.
-- Fnmatch   fnmatch.c: a round of the loop is the function step; Rounds has its cases and a relation of
--           the rounds, Sound, Suffixes and Complete are about the results in its terms, Behind about
--           what an element leaves, Total about the rounds. Elements reads a pattern as elements
--           and says what they accept, without the code; Accepts compares match_one with it, and
--           Patterns is about fnmatch and the strings that a pattern matches element by element.
-- Stdlib    stdlib.c and rand.c: Exit is about the handlers at exit, Environment about getenv.
-- Byteswap  byteswap.c; Bytes is about bswap_16 and bswap_32.
-- Stdio     stdio.c and scanf.c: a stream as the FILE of stdio.h with the memory of its buffers and the
--           rest of the machine, with the routines that write to it; Read has those that read,
--           Integer the texts of ostr and oint, Directive the directives of vfprintf, Printf
--           vfprintf and vsnprintf, Lines getdelim, Seek fseek and setvbuf, Scan the characters and numbers of vfscanf,
--           ScanFormat its directives and Scanf vfscanf itself. Cells is about the bytes of a
--           buffer, Output about fputc and fflush, Full about fputc on a buffer that stays full,
--           Bulk about fputs and puts, Source has what is still to be read, Input is about ic,
--           Pushback about ungetc, Moved about fseek, Getdelim about getdelim, Scanned and Numbers about the scanner,
--           Decimal about %d, Sink about a string as a stream, Parsed about the parts of a
--           directive, Truncated about vsnprintf.
-- Format    strftime.c: Digits is about the numbers that it writes, Text about the formats.
--
-- Numbers are natural numbers; a size_t, a long and a uint32_t have 32 bits and an unsigned long long has
-- 64, with the wrap-around written out where the source can reach it. Addresses do not wrap, and a word
-- access is little-endian.
--
-- Bounds and fuel. The loops of string.c run on a `while` with fuel above the count they run down,
-- or on fuel 4 where they stop at the next multiple of 4; the loops of bitops.c run on fuel for 64
-- bits. The theorems say what the routines compute, so they show that this fuel is enough. The
-- walks of the allocator, of the conversions and of the string routines are recursions on a list.
-- The loop of strstr has one round more than the string has characters, fix one more than its
-- bound, bsearch one more than there are elements, the loop over the years one more than there are
-- days, fnmatch as many as the product of both lengths with their terminators, and strftime nests
-- twice, as the formats it calls itself with have no further such directive. The loop of digits has 65
-- rounds, more than an unsigned long long has digits, vfprintf one more than the format has
-- characters, and so has vfscanf; fwrite has as many as there are bytes, and a run of vfscanf over blanks
-- and getdelim as many as the caller says, where one more than the characters left is enough.
--
-- The hook _sbrk belongs to the embedding program. The theorems on the heap take an arbitrary function
-- `grants`, which says whether the break at an address can be moved by an increment. A successful call
-- moves the break by just that increment, as the hook is documented to do; it is an intptr_t, so a size
-- of 2^31 bytes and more moves the break down. Requests from 2^31 - 15 to 2^31 - 1 bytes, which the code does
-- not refuse, come to the hook in this way; the theorems on malloc and its callers leave them out (IsRequest).
--
-- A time_t is signed and has 32 bits: a time from 2^31 on is negative, before 1970, and tp2tm gives its negative
-- fields.
--
-- The comparison function of qsort and bsearch is a parameter, and so is the time zone, and what malloc
-- returns to strdup and strndup. A string is the list of its characters without the terminator. Where
-- the code reads on behind it, in strstr on an empty string and in vfprintf on a format that ends in the flags of a
-- directive, the function has no result. What a handler does to the table of handlers at exit is a parameter too; the
-- fuel of finalize bounds the calls, and 16 are enough where no handler registers another one.
--
-- The read, write and malloc of a stream are a record of parameters, Kernel. The theorems on streams take that
-- a write adds to the file what it says it took, and that a read of at least one byte gives the next
-- bytes of the file, and none at its end only. What lseek gives is a parameter of fseek, and takes nothing from the file; what ofloat writes for a
-- floating-point argument is one of vfprintf; %n stores in the memory of the stream, and what vfscanf stores is taken not to lie there.
--
-- Not modelled: the copy of TRE (regcomp.c, regexec.c, regerror.c, tre_mem.c), floating point
-- (math_runtime.c, complex.c, strtod), the wrappers of system calls, assembly, and so far
-- malloc.c, of stdio.c fopen, fclose, fmemopen and ofloat, of scanf.c fread, and of
-- stdlib.c itoa and system. The contents of a free chunk's
-- payload, which its list pointer overlays, are not followed.
pub mod Base
pub mod Memory
pub mod MemOps
pub mod FreeList
pub mod NoosHeap
pub mod Ctype
pub mod Bitops
pub mod Strto
pub mod Strings
pub mod Sorting
pub mod Calendar
pub mod Format
pub mod Fnmatch
pub mod Stdlib
pub mod Byteswap
pub mod Stdio
