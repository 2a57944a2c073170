-- ===== src/Lib.antt =====
-- Verification library of rpi0-naivegfs: raspberry pies with a FAT32 file system on their SD
-- cards, joined to a distributed file system by a mac that boots them over serial lines.
--
-- The program has two sides. On the pi (pi-src/), fat32.c holds the file system: it reads the
-- partition table and the file allocation table of the card into memory, finds and allocates
-- files in the root directory, and writes each changed sector back. fat32-dfs.c and main.c keep a
-- configuration file there, a sector of sixteen entries, each the name of a distributed file
-- system and the id of this card in it; main.c asks for that name over the serial line and
-- answers with the id. printk.c, sprintk.c, string.c, memset.c and gpio.c are its small library.
-- On the mac (mac-src/), pi-install.c boots each connected pi with bootpi.c, tells it the name
-- and offers an id, and get-pi-output.c then prints what the pies send until each is done.
--
-- Files:
-- Base: Boolean tests, arrays as lists, machine words, and programs with a state that end with a
--   result, stop for good (panic, _halt), or are still running, waiting for a byte or with their
--   rounds used up.
-- Strings: strncpy and strncmp of pi-src/string.c. A char is unsigned, as on the pi.
-- Memory: memset of pi-src/memset.c.
-- Fat32/Layout: the structures of pi-src/fat32.h and their bytes.
-- Fat32/State: the static variables of pi-src/fat32.c and the block device, a parameter with the
--   laws of a disk: a written sector is read back, and the other sectors stay.
-- Fat32/Table: fat32_next_cluster, find_free_local_cluster, alloc_free_local_cluster,
--   fat32_point_fat and follow_file_chain. Table/Find has the list of free clusters,
--   Table/Geometry what a mounted volume is, Table/Frame which sectors a change of the table
--   leaves, Table/Synced the agreement of the table in memory with that on the disk, Table/Alloc
--   allocation and linking under it.
-- Fat32/Files: alloc_local_file_at; Files/Filled has the record that it fills in, and Files/Chain
--   the chain that it builds.
-- Fat32/Directory: fat32_get_cluster_no and fat32_alloc_local_file. Directory/Lookup and
--   Directory/Listing have the search as a search in one list. Directory/Insert is about the scan
--   of a sector for a free record, Directory/Written about what is written there,
--   Directory/Place and Directory/Rounds about the walk to that record, Directory/Created about
--   the search afterwards, Directory/Still about the files that were there before,
--   Directory/Named about names, Directory/Creation about the whole state after it, and
--   Directory/RoundTrip puts these together. Directory/Remounted is about the search on a disk
--   that an earlier session has left.
-- Fat32/Clusters: read_cluster and write_cluster; Clusters/Kept is about the clusters of the files
--   that are there when another is made. Fat32/Dumps: what fat32_dump_dir_rec,
--   dump_root_content and fat32_inspect_dir print.
-- Fat32/Mount: fat32_init. Mount/Partitions and Mount/Load are about the choice of a partition and
--   the words of the table, Mount/Card about the cards that become a mounted volume, and
--   Mount/Restart about mounting a card again.
-- Dfs: dfs_init_config of pi-src/fat32-dfs.c and id_for_dfs of pi-src/main.c; Dfs/Config is about
--   a configuration file that is made and then used, Dfs/Restart about its use in a later session.
-- Protocol: the serial dialogue. Protocol/Line has the words of pi-src/boot-defs.h, Protocol/Pi
--   the function entry of pi-src/main.c, Protocol/Words boot_get32 and boot_put32 of
--   pi-src/get-code.h, Protocol/Mac boot and dfs_boot of mac-src/bootpi.c, Protocol/Install
--   boot_connected_pies of mac-src/pi-install.c, Protocol/Root its init_dfs and main.
--   Protocol/Dialogue runs entry and dfs_boot against each other, Dialogue/Restart through two
--   boots of one pi. Protocol/Script has them byte by byte: a script is what a side hears and says
--   in order, Script/Talks composes programs that follow scripts, Script/Entry and Script/Mac are
--   the scripts of entry and dfs_boot, and Script/Runs lets the bytes arrive one by one, in any
--   order of the two directions; a read of the mac that finds nothing, which ends the program in
--   Protocol/Mac, stands for the wait there. Protocol/Fleet is about boot_connected_pies with
--   several such pies, whose loader, which is not part of the repository, is a parameter.
-- Print: putwchar, emit_val and vprintk of pi-src/printk.c, vsnprintk of pi-src/sprintk.c;
--   Print/Numerals says what digits stand for, Print/Digits is about those of emit_val,
--   Print/Pieces puts formats together from pieces, Print/Utf8 reads UTF-8 back, and
--   Print/Buffer is about vsnprintk.
-- Output: mac-src/get-pi-output.c; Output/Loop has get_pi_output, Output/Found, Output/Cuts,
--   Output/Closing and Output/Drained its laws, Output/Select which pi a round reads from.
--   Output/Panic has putk of pi-src/printk.c and panic
--   of pi-src/error.c, and what the mac makes of their output.
-- Gpio: pi-src/gpio.c.
-- Timer: pi-src/timer.c. The counter's readings are a parameter.
-- The modules named Examples and Sample hold concrete disks, names and values.
--
-- State is passed explicitly: the static variables of fat32.c are the record Fs, a serial line is
-- what will arrive and what was sent, and the whole pi is both. A word of w bits is a number
-- below 2 ^ w, with the modulus written out where the code can wrap.
--
-- Bounds: a chain of clusters may be a cycle, so the walks of a directory take a number of
-- rounds; one round for each cluster of the chain is enough. The search for a free cluster takes
-- as many rounds as the table has words. Mount/Card is about cards whose table has one sector, of
-- 128 words. A wait on a serial line takes one round for each byte that arrives, and one more;
-- each round takes at least a byte, so they are enough. `emit_val` has room for 33 digits, as in
-- the code. The draining of a pi takes a number of rounds, since a pi may send for ever; one round
-- for each read is enough. A wait of the timer takes one round for each reading of the counter.
--
-- Not modelled: the SD driver pi-src/bzt-sd.c and the checksum mac-src/boot-crc32.h, which are
-- third-party code; fat32_dump_vol_id, which only prints; the start-up code and the assembly; the
-- calls of the operating system on the mac, which are parameters where their results matter; the
-- messages that are printed; the functions under #if 0; and throwaway/, which is not built.
pub mod Base
pub mod Strings
pub mod Timer
pub mod Fat32
pub mod Dfs
pub mod Print
pub mod Output
pub mod Protocol
pub mod Gpio
pub mod Memory
