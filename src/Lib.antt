-- ===== src/Lib.antt =====
-- The hobby operating system of this repository: a small x86-64 kernel (sys/), a C library (libc/)
-- and a shell (bin/sbush/). This library models the parts below as functions on explicit state and
-- proves what they do.
--
-- Parts and files
--   Prelude    numbers, lists, bits and the integers of the model, shared by all parts
--   Memory     a byte-addressed memory, strings in it
--   Kernel     the kernel, sys/
--     Ports      inportb, outportb, io_wait (sys/pic.c) and inportl, outportl (sys/pci.c): a log of
--                the port accesses, newest first; what a port answers is a parameter
--     Idt        the interrupt table: sys/idt.c, and get_ir_from_idt and set_ir_in_idt of sys/pic.c
--     Pic        the two interrupt controllers: sys/pic.c
--     Console    the text screen at 0xb8000 and its scrolling: getCurrentAddress and
--                UpdateHeightWidth of sys/kprintf.c, the addresses of sys/main.c
--     Kprintf    kprintf with its conversions, printTime, printKeypress: sys/kprintf.c; Terminal,
--                Typing and Lines say what it shows on 24 rows of 80 characters, without addresses
--     Pit        the timer: sys/pit.c
--     Keyboard   the keyboard handler: sys/ps2Controller.c
--     Pci        the scan of the PCI buses: sys/pci.c
--     Layout     how packed structs are laid out, for the two headers below
--     Ahci       the structs of a host bus adapter: include/sys/ahci.h
--     Tarfs      the header of a tar archive: include/sys/tarfs.h
--     Gdt        the segment table and the descriptor of the task state segment: sys/gdt.c; in Load the
--                loading of the registers: sys/gdt.s
--     Entry      the entry of the interrupts with its stack: sys/pit.s, sys/ps2Controller.s, sys/idt.s and
--                include/sys/asm_util.h; Serves joins it with Interrupts
--     Interrupts the endless loop of start, sys/main.c, under the handlers of the timer and the
--                keyboard in any order
--     Boot       sys/main.c: setUpWelcomeScreen and the attribute loop of boot; in Start the search of
--                the memory map and the messages of start; in Setup the order of boot; Welcome says
--                what the screen shows behind it
--   Libc       the C library, libc/
--     Strings    strlen.c, strcmp.c, strchr.c, memcpy.c, memset.c
--     Environ    getenv and setenv: getenv.c
--     Malloc     malloc and free: malloc.c; in Bytes free over memory with the headers in it
--     Stdio      fgetc.c, fgets.c, gets.c, getchar.c, putchar.c, puts.c, print.c, fputs.c
--     Readline   readline.c
--     Syscall    the wrappers of the system calls: include/sys/syscall.h
--     Files      the standard files: stdio.c, fileno.c, and fputs.c down to its call
--   Shell      the shell, bin/sbush/
--     Parser     trim and parseInput: parser.c
--     Pipes      countNumberOfPipes, parsePipeCommand, isValidateParsedPipeInput, getBuiltInCode and
--                the choices of parseAndExecuteCommand: sbush.c
--     Process    a process as the sequence of its system calls; waitForProcessExecution: sbush.c, and
--                the tests of a status of include/signal.h
--     Execute    setExecutionArguments, executeBinary and its two cases, runPiping: sbush.c
--     Commands   the built-in commands and executeCommand: sbush.c
--     Listing    printParsedCommand, which a build with DEBUG calls: sbush.c
--     Script     executeFile on the lines of a file: sbush.c
--     Session    what a line does, parseAndExecuteCommand, and the loop of main: sbush.c; in Scripts
--                the shell with its scripts, in Start the start of its process: crt/crt1.c
--     Release    freeCommandArgument: parser.c, and freeAllParsedCommandArguments: sbush.c; Returns
--                says when the release comes back
--   Cat        the program bin/cat/cat.c
--
-- How they interact. The timer and the keyboard install their handlers through the interrupt table
-- and end each interrupt through the ports; the timer prints through Kprintf, and Kprintf and the
-- keyboard write into the memory of the console. Environ compares keys with strcmp. Pipes
-- splits a line with strchr and parses each part with Parser. Parser takes what new blocks hold as a
-- parameter, since the blocks of Malloc begin with their own header. Boot calls the parts of the kernel
-- in their order and ends where Interrupts starts: the two handlers write one screen and one log of the
-- ports. Commands keeps its variables with setenv and getenv of Environ. Execute runs a command that
-- Parser made, and its processes share nothing but what the kernel answers. Session joins Pipes,
-- Execute and Commands; Script takes the execution of a line, and Execute and Session that of a file, as
-- a parameter, which Session/Scripts fills with each other: a line of a script may open another one,
-- and what it does to the variables comes back to the shell. The session keeps the texts of its commands
-- as lists; behind each line it runs Release, which works on the memory of Strings with the headers of
-- Malloc in it. What this memory holds behind the calls so far is a parameter of the session.
--
-- State. A C global is a field of the record of its component, passed in and returned. A write
-- behind an array of the program is a result of its own (none, or overrun in the parser). A machine
-- word is a number with its wrap-around written out. Addresses are numbers, and a memory is a
-- function from addresses to bytes.
--
-- Processes. The kernel under the shell is a function from the calls made so far to its answers, and
-- fork answers 0 in the child: a theorem on a child is one on the answers that lead to it. exit does
-- not return, and execve returns only if it fails. The calls by which fgets reads a line of a script
-- count as one, and the mappings of the allocator are left aside.
--
-- Loops. A loop with a counter is a recursion on the rounds that are left. The loops of strlen,
-- strcmp and strchr take fuel: one more than the length of the string is enough, as their
-- theorems show. The loop of free takes one more than the blocks it passes: 2 is enough for a list of one block. The digit
-- loops end in none behind the 100 bytes of their arrays, which no 64-bit number reaches. The search of start, the waiting of the shell, readline, the
-- blanks of gets, the copy of cat and the depth of scripts take fuel as well; their theorems say how many rounds are enough,
-- by the modules, the stops, the chunks or the blanks that come in; a script without others inside
-- needs the depth one.
--
-- Not modelled: the program loader, declarations without code but for the two headers
-- above, elf64.h, which does not compile, the boot loader scripts, and the empty ls. mmap, the
-- reads and the kernel are parameters, and write of the library appends to the output. The registers
-- of the processor stand in Entry and in Syscall alone: what the compiled code keeps in them between two instructions
-- of C is a parameter.
pub mod Prelude
pub mod Memory
pub mod Kernel
pub mod Libc
pub mod Shell
pub mod Cat
