-- ===== src/Lib.antt =====
-- A model of program-explorer, which runs a command in a container image inside a virtual machine and
-- returns what it printed and the files that it left. A server takes a request with an archive of
-- files, a runner starts a virtual machine with an image and an io file, the init of the guest reads
-- its configuration and the archive from the io file, runs the command and writes a response and an
-- archive back. Images are made from the layers of an OCI image by squashing them into one.
--
-- The parts and their files:
-- - PathBuf: `std::path::PathBuf` on bytes, as far as the other parts use it (push, pop, parent,
--   file_name, with_file_name, components), defined as `Components` defines it on Unix. Plain has the laws on
--   paths of plain names.
-- - Pearchive: pearchive/src/lib.rs and open.rs. Format has the tags and the readers of names and
--   sizes; Pack is PackMemToWriter and PackMemToVec; Walk is visit_dirc_rec, PackFsToWriter and
--   sendfile_all, over BufWriter, which is that of the standard library; Unpack is unpack_visitor and
--   unpack_to_hashmap; UnpackDir is unpack_to_dir. Forest is the independent description of an
--   archive, a tree of files and directories with its encoding.
-- - Squash: peimage/src/squash.rs. Deletions is DeletionsOsString, with its map as a list in the order
--   of Order, the order of byte strings; Layer is whiteout, squash_layer and squash_cb.
-- - Peinit: peinit/src/lib.rs. Types are the messages, IoFile the readers and writers of the io file,
--   MemFile a file with a cursor on which the theorems run them.
-- - Perunner: round_up_to and round_up_file_to_pmem_size of perunner/src/iofile.rs.
-- - ImageIndex: peimage/src/index.rs. File is PEImageIndex::from_file, Multi is PEImageMultiIndex.
-- - Peoci: peoci/src/spec.rs and compression.rs, the reduced descriptions of images. Spec has the
--   conversions, with Oci for the values of oci_spec that they look at; Compression is the choice of a
--   decompressor, in the type that Squash uses.
-- - Peerofs: peerofs/src/build.rs. Tree is Root with its lookup of directories, Dirents is
--   Dir::prepare_dirent_data, Blocks the arithmetic of block and inode numbers. Writer is the tree that
--   is written, walk_tree and Builder: Build has what is added and the passes in their order, Inodes
--   write_inode with its attributes, Entries the entries of the directories.
-- - Peerofs.Disk: peerofs/src/disk.rs, the reader. Structs are the structures on the disk, Entries
--   DirentsIterator, Attributes XattrsIterator and its prefixes, Image the struct Erofs with the lookup
--   of paths, Compressed the files in clusters.
-- - Peserver: peserver/src/api.rs and lb.rs. Api has the paths, content types and bodies of the
--   interface; LoadBalancer the filters of LB, its permits and Workers. LoadBalancer.Permits has the permits as a
--   step relation over all requests, and what get_permits does as steps of it.
-- - Prelude: names shared by all, lists and tests on native numbers, Result, byte strings.
-- - WaitidTimeout: waitid_timeout/src/lib.rs, the wait for a child with a time limit and a kill; Reaped
--   has what is known of the child behind it.
--
-- How the parts meet: Unpack and Squash build their paths with PathBuf; the archive that Pearchive
-- packs is what stands behind the message in the io file of Peinit; Perunner rounds the size of that
-- file up; ImageIndex takes the kind of an image from Peinit. What Peerofs.Writer writes,
-- Peerofs.Disk reads: the entries of a directory, the inodes with their tails, and the attributes. What
-- the readers of Peinit take out of the io file is the body that parse_response of Peserver reads.
--
-- How the code is written down: fallible code returns a Result with the source's errors. `Option` round
-- a result stands for a loop on fuel, none where it runs out. Mutable state is passed on. A u32, u64 or
-- usize that the source adds to wraps round as in a release build, written as `% 2 ^ 32` and
-- `% 2 ^ 64`. Panics of `unwrap` are results of their own in Peinit.IoFile. An `io::Error` stands by a
-- constructor for its place in the code.
-- The depth that unpack_visitor counts in an i32 has no bound here, and the keys of its map are compared
-- as bytes, where a PathBuf is compared by its components. While a request waits in the load balancer,
-- the others make their steps: how the wait ends, with the permits that are then left, is a parameter.
--
-- Bounds and fuel: unpack_visitor and unpack_to_dir read at least one byte in each round, so their
-- fuel is the length of the archive and one more; the theorems on -ne-none show that it is enough on
-- every input. The sendfile loop takes its fuel as an argument; the walk gives it one round
-- more than the size of the file, which is enough with a kernel that makes progress. The loops over the entries of a directory have fuel for a number of rounds
-- that is quadratic in the bytes, the loop over the clusters of a file one round more than there are
-- indices; the theorems on -HasResult show that both are enough on every image. Walks have the limit of
-- depth of the source. All else is structural recursion.
--
-- Code that is not in the repository is a parameter: the kernel (openat, mkdirat, sendfile, fstat,
-- ftruncate, waitid), the readers of tar archives and the decompressors, bincode, serde_json, oci_spec and
-- hex, pingora with its writes and its rate limiter. What is relied on is a hypothesis where a theorem
-- needs it: that encoding and decoding are inverse, that writing to a file appends and sendfile makes
-- progress, that ftruncate sets the size, that a call of waitid that hangs, for a child to which SIGKILL
-- was sent, has its pid.
--
-- Not modelled: the checksum of the superblock and the printing of an image; the registry client of
-- peoci and its caches, the worker of the server and the calls that set the servers up, the virtual
-- machine's process and sockets, the init of the guest with its mounts, and the device of vhost-user,
-- since what they do is for the most part done by the crates that they call and by the kernel.
pub mod Prelude
pub mod ImageIndex
pub mod PathBuf
pub mod Pearchive
pub mod Peerofs
pub mod Peinit
pub mod Peoci
pub mod Perunner
pub mod Peserver
pub mod Squash
pub mod WaitidTimeout
