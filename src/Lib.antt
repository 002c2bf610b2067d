-- ===== src/Lib.antt =====
-- The demo applications of zephyr-start, modelled and proved.
--
-- The repository holds independent Zephyr applications. Each keeps its state in static variables of
-- one file, mostly its main.c, and calls the kernel, the drivers and the libraries of Zephyr; these
-- are not in the repository, so their calls are parameters, records of functions over a world `W`,
-- and what a theorem needs of them is a named record of hypotheses (IsSemaphore, IsDriver, IsClock,
-- IsFile, IsLoader, IsFlushing, IsQueue, IsHealthy, CountsSockets, CountsRefusals,
-- CountsMalformed, CountsReboots, LogsDatagrams, LogsReplies, LogsCalls, LogsStops, IsRouter, IsShell, IsLoopback, IsLutFields, IsGpio,
-- IsChip). The tests fill those of the results with concrete ones. No application calls another.
--
-- Base: tests and `if` on the native numbers, lists with lengths and indices, integers with the
--   error codes of errno.h, decimal printing.
-- CanGen, of app/demos/frdm_can_traffic_generator/src/main.c. Board holds the calls; Parse holds
--   `strtoul` of C and the two readers of numbers, parse_period_ms and the part of
--   cmd_can_gen_burst; Defs holds the static variables as the record Gen and tx_callback,
--   send_frame, send_demo_frames, reset_tx_semaphore, restart_can_controller, maybe_auto_recover,
--   and main as main_start and main_round; Shell holds the can_gen commands, Commands their table
--   and the lines that are typed, Status print_status. The driver calls tx_callback when it likes,
--   so Steps has one step for each operation and each callback, and what can be reached by them;
--   while the burst command sleeps between its sets, whole rounds of the loop of main run, as many
--   as the scheduler's `rounds_meanwhile` says;
--   Recovery is about sequences of failures, Sending, Frames and Formed about what is sent,
--   Accounts and Balance about what the statistics add up to.
-- T1s, of app/demos/ethernet_bridge/t1s_device/src/main.c. Defs holds the colour and the slots of
--   the clients as the record Device, and rgb_apply, state_json, ws_send_state, ws_broadcast_state,
--   ws_client_thread and ws_setup_cb; Firmware holds firmware_handler with fw_abort and its label
--   `error`, and its children are about uploads, their failures and the reboots; Main holds main;
--   Service holds the HTTP resources and the state of the whole file under requests. Bag holds the
--   bag of the connected sockets, a quotient of the tables of slots, with the steps that it may
--   take, and Table is about the slots as that bag; Threads has the threads of the clients beside
--   their slots, with the end of a thread in three steps, and Told and Synced are about what the other clients are told.
-- Littlefs, of app/demos/littlefs/src/main.c. Pattern holds init_pattern and incr_pattern, Print
--   print_pattern, Fs the functions that call the file system in the build with flash storage, and
--   Block those of the build with a block device; File, Counted, Adjusted and Handles are about the
--   files, and Pattern.Boots about the pattern.
-- Display, of app/demos/display/src/main.c. Fill holds the fill_buffer functions, Layout the
--   sizes and the acts of main, its fills and writes in order, and Acts those acts on the buffer;
--   Shown is about what each write shows.
-- Counter, of app/demos/can_counter/src/main.c. Defs holds rx_thread, change_led_work_handler,
--   poll_state_thread and the rounds of main; Led, Poll and Sends are about one of them each, Blink
--   about the frames of the LED in loop-back; States holds tx_irq_callback, state_change_callback
--   and its work handler.
-- Sync, of app/demos/synchronization/src/main.c. Defs holds hello_loop as a step between two
--   calls, and the system of both threads; Phases and Turns are about its schedules.
-- Hrs, of app/demos/rw612-ble-shell/src/main.c. Defs holds cmd_hrs_simulate, hrs_notify and main.
-- Lan, of app/demos/ethernet_bridge/lan8651_t1s_demo/src/main.c. Defs holds get_ipv4_addr,
--   ipv4_to_text and the texts that http_server and main send, Net the socket calls, Servers
--   udp_server, http_server and the transmitter of main, Main event_handler, wait_for_ipv4 and
--   main; Leaks is about the sockets that are open, Datagrams, Echo, Kept, Replies and Transmit
--   about what each thread sends.
-- Bridge, of app/demos/ethernet_bridge/bridge/src/main.c. Defs holds its functions, with the
--   calls that they make as a list; Ports is about the members of the bridge, Address about the
--   addresses.
-- I2c, of app/demos/i2c_shell/src/main.c: read_temperature_handler.
-- Dhcp, of app/demos/dhcpv4_client/src/main.c: handler, option_handler and main.
-- Boot, of boards/nxp/rt1050_custom: the tables that the boot ROM of the board reads. DcdData
--   holds the bytes of dcd/dcd.c, DcdComments what its comments say, and Dcd reads the bytes as the
--   reference manual of the chip describes; Lut, Flash, Layout and Config are of
--   xip/rt1050_custom_flexspi_nor_config, Sequences is about the sequences that its commands use,
--   Image lays the fields out as bytes and Hyperflash is about the image.
-- BareMetal, of app/demos/bare_metal_direct/src/main.c: main, with the registers of the port as a
--   parameter.
-- DirectIrq, of app/demos/direct_irq/src/ezh_app.c. Defs holds the calls of ezh__start_app, the
--   handler smartdma_irq_handler, and the steps of both; Order is about their interleavings.
-- Kernel: the documented semaphore, which CanGen and Sync rely on.
--
-- A C integer is a native number with its wrap-around written out; a result that may be negative is
-- an integer of Base. A loop is a recursion on a count that the code itself has, or on fuel: lsdir
-- and the clearing of the display take fuel, and their theorems give an amount that is enough.
-- `while (true)` is one round of the loop, or the rounds of a list of inputs or of a number. Steps of
-- several threads happen one after the other, at the boundaries of the calls.
--
-- Not modelled: what is printed or logged, where nothing depends on it; the applications that only
-- print or that hand over to a library (listed in PROJECT.json), the coprocessor's program of direct_irq,
-- which is written in the macros of a vendor's assembler, the web pages.
pub mod Base
pub mod Kernel
pub mod CanGen
pub mod T1s
pub mod Littlefs
pub mod Display
pub mod Counter
pub mod Sync
pub mod Hrs
pub mod Lan
pub mod Bridge
pub mod I2c
pub mod Dhcp
pub mod Boot
pub mod BareMetal
pub mod DirectIrq
